-- ===== src/Transfer.antt =====
-- Copying a variable to a local file, a part of its first dimension at a time: getAndPutVarToFile of
-- api/lib/rcNcInq.cpp. The read and the write are parameters.
pub mod Chunks
pub mod Copy
use irods_netcdf.Base.{
  ℕ, zero, suc, ◌+◌, ◌-◌, ◌*◌, ◌/◌, ◌%◌, ◌^◌, Bool, true, false, Option, none, some, List, [], ◌∷◌,
  ℤ, pos, ltb, leb, ◌==◌, if◌then◌else◌, map, ◌||◌,
}
use irods_netcdf.Status.{Result, ok, err, fault, ◌>>=◌, code, netcdf_put_vars_err}
use irods_netcdf.NcType.{NcType}
use irods_netcdf.Vars.{DimRange, NcGetVarInp, int_mod, is_negative}

-- size_t, and the bit pattern of a rodsLong_t.
abbrev pub word : ℕ
word = 2 ^ 64

abbrev pub nc_var_trans_sz : ℕ
nc_var_trans_sz = 4 * 1024 * 1024

-- lstart[i], lcount[i] and lstride[i]. They are sizes of arrays, below 2 ^ 63.
pub record LRange : Type 0 where
  pub lstart : ℕ
  pub lcount : ℕ
  pub lstride : ℕ

-- arrayLen, the elements that the ranges select; a division by zero is a fault.
unfoldable pub selected_len : ℕ → List LRange → Result ℕ
selected_len len [] = ok len
selected_len len (d ∷ ds) =
    let rest =
      selected_len ((len * (((d.lcount + (word - 1)) % word) / d.lstride + 1)) % word) ds in
    if (d.lstride == 0) then fault else rest

-- NC_VAR_TRANS_SZ / stepSize + 1 of ints, converted to size_t; `step_size` is the pattern of an int.
unfoldable pub steps_of : ℕ → ℕ
steps_of step_size =
    let q = nc_var_trans_sz / (int_mod - step_size) in
    if is_negative step_size
    then (if ltb 1 q then word - (q - 1) else 1 - q)
    else nc_var_trans_sz / step_size + 1

-- dimStep, the most of the first dimension that is copied at once.
unfoldable pub dim_step : ℕ → ℕ → Result ℕ
unfolding steps_of
dim_step lcount array_len =
    if leb (2 ^ 63) array_len || leb array_len nc_var_trans_sz
    then ok lcount
    else if (lcount == 0) || ((array_len / lcount) % int_mod == 0)
    then fault
    else ok (steps_of ((array_len / lcount) % int_mod))

-- The part of a range of the first dimension.
abbrev pub part : LRange → ℕ → ℕ → LRange
part d start count = record { lstart = start; lcount = count; lstride = d.lstride }

abbrev pub to_dim_range : LRange → DimRange
to_dim_range d = record { start = pos d.lstart; count = pos d.lcount; stride = pos d.lstride }

module _ {O S : Type 0} (get_vars : NcGetVarInp → Result O)
    (put_vars : List LRange → O → S → Option S) where
  -- One turn of the loop: start[0], count[0] and what the file becomes. `none` is a status of
  -- nc_put_vars that is an error.
  unfoldable pub put_part : Option S → Result S
  put_part none = err (code netcdf_put_vars_err)
  put_part (some s) = ok s

  unfoldable pub move_part : NcType → ℕ → ℤ → LRange → List LRange → ℕ → ℕ → S → Result S
  unfolding put_part
  move_part data_type ncid varid d ds start count s =
      get_vars (record {
        data_type = data_type;
        ncid = ncid;
        varid = varid;
        dims = map to_dim_range (part d start count ∷ ds);
      })
      >>= λ out. put_part (put_vars (part d start count ∷ ds) out s)

  -- mycount[0]
  abbrev pub this_count : ℕ → ℕ → ℕ → ℕ
  this_count lcount step cur = if ltb lcount ((cur + step) % word) then lcount - cur else step

  -- The loop; without fuel it has not ended. `cur` is curCount, `start` is start[0].
  unfoldable pub transfer_loop :
      ℕ → NcType → ℕ → ℤ → LRange → List LRange → ℕ → ℕ → ℕ → S → Result S
  unfolding move_part
  transfer_loop zero data_type ncid varid d ds step cur start s = fault
  transfer_loop (suc fuel) data_type ncid varid d ds step cur start s =
      let count = this_count d.lcount step cur in
      let next = move_part data_type ncid varid d ds start count s >>= λ s'.
      transfer_loop fuel data_type ncid varid d ds step ((cur + count) % word)
        ((start + count) % word) s' in
      if ltb cur d.lcount then next else ok s

  -- getAndPutVarToFile. The loop takes at most lcount[0] turns and the last test, unless the step is 0,
  -- with which it does not end. A variable without dimensions has no lcount[0] to read.
  unfoldable pub get_and_put_var_to_file : ℕ → ℤ → NcType → List LRange → S → Result S
  unfolding selected_len dim_step transfer_loop
  get_and_put_var_to_file ncid varid data_type [] s = fault
  get_and_put_var_to_file ncid varid data_type (d ∷ ds) s = selected_len 1 (d ∷ ds) >>= λ len.
      dim_step d.lcount len >>= λ step.
      transfer_loop (d.lcount + 1) data_type ncid varid d ds step 0 d.lstart s

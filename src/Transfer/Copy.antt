-- ===== src/Transfer/Copy.antt =====
-- getAndPutVarToFile (api/lib/rcNcInq.cpp) as its callers use it, with strides of 1: the parts that it
-- copies, and the file that it makes.
use irods_netcdf.Base.{
  ℕ, ◌+◌, ◌-◌, ◌*◌, ◌/◌, ◌^◌, ◌≤◌, ◌<◌, ◌%◌, ◌≡◌, Option, some, List, [], ◌∷◌, ◌++◌, ℤ, arith, leb,
  Bool-cases, leb→le, subst, inl, inr, ap, sym, take, drop, length, map,
}
use irods_netcdf.Status.{Result, ok}
use irods_netcdf.NcType.{NcType}
use irods_netcdf.Vars.{NcGetVarInp, int_mod}
use irods_netcdf.Transfer.{
  LRange, word, nc_var_trans_sz, selected_len, steps_of, dim_step, move_part,
  get_and_put_var_to_file, part, to_dim_range,
}
use irods_netcdf.Transfer.Chunks.{Tiles, move_all, chunks, chunks-Tiles, transfer_loop-move_all}
use native.Mathlib.Nat.{
  le-mul_of_pos_right, div-mul-le_self, mul-div_cancel_left, mul_comm, mul_assoc,
}

-- What the callers pass: strides of 1, and no empty dimension.
abbrev pub Dense : List LRange → Type 0
Dense [] = Unit {0}
Dense (d ∷ ds) = (d.lstride ≡ 1) × (0 < d.lcount) × Dense ds

-- The elements of one index of the dimensions before them.
abbrev pub row_len : List LRange → ℕ
row_len [] = 1
row_len (d ∷ ds) = d.lcount * row_len ds

row_len-pos : (ds : List LRange) → Dense ds → 0 < row_len ds
row_len-pos [] h = omega arith
row_len-pos (d ∷ ds) (s, p, h) =
    omega (arith, le-mul_of_pos_right {m = row_len ds} d.lcount (row_len-pos ds h))

selected_len-Dense :
    (len : ℕ) (ds : List LRange)
    → Dense ds
    → 0 < len
    → len * row_len ds < word
    → selected_len len ds ≡ ok (len * row_len ds)
unfolding selected_len
selected_len-Dense len [] h p w = ground arith
selected_len-Dense len (d ∷ ds) (s, c, h) p w =
    let fits : len * d.lcount * row_len ds < word =
      subst (λ n. n < word) (sym (mul_assoc len d.lcount (row_len ds))) w in
    let front : len * d.lcount ≤ len * d.lcount * row_len ds =
      le-mul_of_pos_right {m = row_len ds} (len * d.lcount) (row_len-pos ds h) in
    let count : d.lcount ≤ len * d.lcount =
      subst (λ n. d.lcount ≤ n) (mul_comm d.lcount len)
        (le-mul_of_pos_right {m = len} d.lcount p) in
    let less_one : (d.lcount + (word - 1)) % word / 1 + 1 ≡ d.lcount = omega arith in
    let no_wrap : len * d.lcount % word ≡ len * d.lcount = omega arith in
    let ih : selected_len (len * d.lcount) ds ≡ ok (len * d.lcount * row_len ds) =
      selected_len-Dense (len * d.lcount) ds h (omega arith) fits in
    rw (s, less_one, no_wrap, ih) (ap ok (mul_assoc len d.lcount (row_len ds)))

-- The step of such a variable: not 0, and no more elements than NC_VAR_TRANS_SZ and one index.
dim_step-pos :
    (count r : ℕ)
    → 0 < r
    → 0 < count
    → r < 2 ^ 31
    → count * r < 2 ^ 63
    → (step : ℕ) × (dim_step count (count * r) ≡ ok step)
      × (0 < step)
      × (count + step < word)
      × (step * r ≤ nc_var_trans_sz + r)
unfolding dim_step steps_of
dim_step-pos count r p c s l = elim (Bool-cases (leb (count * r) nc_var_trans_sz)) [
  | inl small ↦ (
    count,
    rw small (ground arith),
    c,
    omega (arith, leb→le (count * r) nc_var_trans_sz small, le-mul_of_pos_right {m = r} count p),
    omega (arith, leb→le (count * r) nc_var_trans_sz small),
  )
  | inr large ↦
      let quotient : count * r / count ≡ r = mul-div_cancel_left r c in
      let no_wrap : r % int_mod ≡ r = omega arith in
      (
        nc_var_trans_sz / r + 1,
        rw (quotient, no_wrap) (ground arith),
        omega arith,
        omega (
          arith,
          le-mul_of_pos_right {m = r} count p,
          div-mul-le_self nc_var_trans_sz r,
          le-mul_of_pos_right {m = r} (nc_var_trans_sz / r) p,
        ),
        ground (arith, div-mul-le_self nc_var_trans_sz r),
      )
]

module _ {O S : Type 0} (get_vars : NcGetVarInp → Result O)
    (put_vars : List LRange → O → S → Option S) where
  -- A variable with strides of 1 and no empty dimension, whose size is below 2 ^ 63 and whose rows are
  -- below 2 ^ 31 elements, is copied in parts that follow each other over the whole range of the first
  -- dimension; a part is not empty and is at most NC_VAR_TRANS_SZ elements and one row. The copy ends,
  -- and it stops at the first part that fails, with its error.
  pub get_and_put_var_to_file-Tiles :
      (ncid : ℕ) (varid : ℤ) (t : NcType) (d : LRange) (ds : List LRange) (s : S)
      → Dense (d ∷ ds)
      → row_len ds < 2 ^ 31
      → d.lcount * row_len ds < 2 ^ 63
      → d.lstart < 2 ^ 63
      → (step : ℕ) × (parts : List (ℕ × ℕ)) × Tiles step d.lstart (d.lstart + d.lcount) parts
        × (step * row_len ds ≤ nc_var_trans_sz + row_len ds)
        × (get_and_put_var_to_file get_vars put_vars ncid varid t (d ∷ ds) s
            ≡ move_all (move_part get_vars put_vars t ncid varid d ds) parts s)
  unfolding get_and_put_var_to_file
  get_and_put_var_to_file-Tiles ncid varid t d ds s h r l b =
      let (stride, some_row, dense) = h in
      let pos_row = row_len-pos ds dense in
      let count_le : d.lcount ≤ d.lcount * row_len ds =
        le-mul_of_pos_right {m = row_len ds} d.lcount pos_row in
      let (step, is_step, pos_step, at_most, size) =
        dim_step-pos d.lcount (row_len ds) pos_row some_row r l in
      let len : selected_len 1 (d ∷ ds) ≡ ok (1 * (d.lcount * row_len ds)) =
        selected_len-Dense 1 (d ∷ ds) h (omega arith) (omega arith) in
      let one : 1 * (d.lcount * row_len ds) ≡ d.lcount * row_len ds = omega arith in
      (
        step,
        chunks (d.lcount + 1) d.lcount step 0 d.lstart,
        chunks-Tiles (d.lcount + 1) d.lcount step 0 d.lstart (d.lstart + d.lcount) pos_step
            (omega arith) (omega arith) (omega arith),
        size,
        rw (len, one, is_step)
            (transfer_loop-move_all get_vars put_vars (d.lcount + 1) t ncid varid d ds step 0
              d.lstart s pos_step (omega arith) (omega arith) (omega arith) (omega arith)),
      )

module _ {R : Type 0} (get_vars : NcGetVarInp → Result (List R))
    (put_vars : List LRange → List R → List R → Option (List R)) where
  -- The source holds `rows`: a read of some of them, and of no others, gives these, and a write of a part at the end of the
  -- file adds them.
  pub record Reads (ncid : ℕ) (varid : ℤ) (t : NcType) (d : LRange) (ds : List LRange)
      (rows : List R) : Type 0 where
    pub read_rows :
        (start count : ℕ)
        → 0 < count
        → start + count ≤ length rows
        → get_vars (record {
          data_type = t;
          ncid = ncid;
          varid = varid;
          dims = map to_dim_range (part d start count ∷ ds);
        })
          ≡ ok (take count (drop start rows))
    pub write_rows :
        (start count : ℕ) (out file : List R)
        → length file ≡ start
        → put_vars (part d start count ∷ ds) out file ≡ some (file ++ out)

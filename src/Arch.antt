-- ===== src/Arch.antt =====
-- The archive of a time series (api/src/rsNcArchTimeSeries.cpp): where the new time steps begin
-- (getTimeInxForArch), how they are written in files of a bounded size (archPartialTimeSeries), and the
-- size of a time step (getTimeStepSize of api/lib/rcNcInq.cpp).
pub mod Start
pub mod Files
pub mod Server
pub mod Extend
use irods_netcdf.Base.{
  ℕ, zero, suc, ◌+◌, ◌-◌, ◌*◌, ◌/◌, ◌%◌, ◌^◌, Bool, true, false, Option, none, some, List, [], ◌∷◌,
  ℤ, pos, negsuc, ◌+ℤ◌, ltb, leb, ◌==◌, if◌then◌else◌, get_elem?, strcasecmp_eq, strcmp_eq, codes,
}
use irods_netcdf.Status.{
  Result, ok, err, fault, ◌>>=◌, deref, code, foreign, netcdf_dim_mismatch_err,
}
use irods_netcdf.NcType.{
  NcType, nc_short, nc_ushort, nc_int, nc_uint, nc_int64, nc_uint64, nc_float, nc_double,
  get_data_type_size,
}
use irods_netcdf.Inq.{NcGenDimOut, NcGenVarOut, NcInqOut}
use irods_netcdf.Vars.{int_mod, int_of_pattern}
use irods_netcdf.Agg.{NcAggElement}
use irods_netcdf.Agg.Path.{get_agg_base_path, get_next_agg_ele_obj_path, arch_obj_path}

-- READ_TIME_SIZE
abbrev pub read_time_size : ℕ
read_time_size = 100

-- readCount
unfoldable pub read_count : ℕ → ℕ
read_count remain = if leb remain read_time_size then remain else read_time_size

-- Either the answer of a page, or the pages before it.
unfoldable pub found_or : Option ℕ → ℕ → Result ℕ → Result ℕ
found_or (some good) remain rest = ok (remain + good + 1)
found_or none remain rest = rest

-- ncValueToInt, as the pattern of an int: `as_int` converts an element of a type with a case.
abbrev pub has_int_case : NcType → Bool
has_int_case nc_short = true
has_int_case nc_ushort = true
has_int_case nc_int = true
has_int_case nc_uint = true
has_int_case nc_int64 = true
has_int_case nc_uint64 = true
has_int_case nc_float = true
has_int_case nc_double = true
has_int_case t = false

module _ {V : Type 0} (as_int : NcType → V → ℕ) (invalid_data_type : ℕ) where
  -- The error is the pattern of NETCDF_INVALID_DATA_TYPE.
  unfoldable pub nc_value_to_int : NcType → V → ℕ
  nc_value_to_int t v = if has_int_case t then as_int t v else invalid_data_type

  -- goodInx of a page, `none` for -1: the times are unsigned, so that the test of a value below 0 is
  -- never true.
  unfoldable pub scan_page : NcType → ℕ → ℕ → Option ℕ → List V → Option ℕ
  unfolding nc_value_to_int
  scan_page t prev_end_time i good [] = good
  scan_page t prev_end_time i good (v ∷ vs) =
      let rest = scan_page t prev_end_time (i + 1) (some i) vs in
      if ltb prev_end_time (nc_value_to_int t v) then good else rest

  -- The loop over the pages, from the last; `get_page` is the call that reads a start and a count.
  unfoldable pub page_loop : (ℕ → ℕ → Result (List V)) → NcType → ℕ → ℕ → ℕ → Result ℕ
  unfolding scan_page found_or read_count
  page_loop get_page t prev_end_time zero remain = fault
  page_loop get_page t prev_end_time (suc fuel) remain =
      let count = read_count remain in
      let rest = page_loop get_page t prev_end_time fuel (remain - count) in
      let page = get_page (remain - count) count >>= λ vs.
      found_or (scan_page t prev_end_time 0 none vs) (remain - count) rest in
      if (remain == 0) then err (code netcdf_dim_mismatch_err) else page

  -- getTimeInxForArch. A page takes away at least one time, and the last test one turn.
  unfoldable pub get_time_inx_for_arch : (ℕ → ℕ → Result (List V)) → NcType → ℕ → ℕ → Result ℕ
  unfolding page_loop
  get_time_inx_for_arch get_page t array_len prev_end_time =
      page_loop get_page t prev_end_time (array_len + 1) array_len

-- The first dimension that is called time, in any case of letters.
unfoldable pub find_time_dim : ℕ → List NcGenDimOut → Option ℕ
find_time_dim i [] = none
find_time_dim i (d ∷ ds) =
    let rest = find_time_dim (i + 1) ds in
    if strcasecmp_eq d.name (codes "time") then some i else rest

-- varSize, the pattern of an int.
unfoldable pub var_size_loop : List NcGenDimOut → ℕ → ℕ → List ℕ → Result ℕ
var_size_loop dims time_dim_inx size [] = ok size
var_size_loop dims time_dim_inx size (dim_id ∷ dim_ids) =
    let skip = var_size_loop dims time_dim_inx size dim_ids in
    let times = deref (get_elem? dims dim_id) >>= λ dim.
    var_size_loop dims time_dim_inx ((size * dim.array_len) % int_mod) dim_ids in
    if (dim_id == time_dim_inx) then skip else times

unfoldable pub total_size : List NcGenDimOut → ℕ → ℤ → List NcGenVarOut → Result ℤ
unfolding var_size_loop
total_size dims time_dim_inx total [] = ok total
total_size dims time_dim_inx total (v ∷ vs) = get_data_type_size v.data_type >>= λ size.
    var_size_loop dims time_dim_inx size v.dim_id >>= λ var_size.
    total_size dims time_dim_inx (total +ℤ int_of_pattern var_size) vs

unfoldable pub time_step_size_at : NcInqOut → Option ℕ → Result ℤ
unfolding total_size
time_step_size_at inq none = err (code netcdf_dim_mismatch_err)
time_step_size_at inq (some time_dim_inx) = total_size inq.dim time_dim_inx (pos 0) inq.var

-- getTimeStepSize
unfoldable pub get_time_step_size : NcInqOut → Result ℤ
unfolding find_time_dim time_step_size_at
get_time_step_size inq = time_step_size_at inq (find_time_dim 0 inq.dim)

-- The calls that the archive makes for a file, on a state of the server that the model does not look
-- into.
pub record FileOps (S : Type 0) : Type 0 where
  pub create : List ℕ → S → Result (Unit {0}) × S
  pub dump_subset : List ℕ → ℕ × ℕ → S → Result (Unit {0}) × S
  pub register : List ℕ → S → Result (Unit {0}) × S
  pub close : S → S

abbrev pub and_then {ℓ} :
    {S : Type ℓ} → Result (Unit {0}) × S → (S → Result (Unit {0}) × S) → Result (Unit {0}) × S
and_then (ok u, s) next = next s
and_then (err e, s) next = (err e, s)
and_then (fault, s) next = (fault, s)

-- inxInterval of this turn: if what remains is close enough, all of it.
unfoldable pub this_interval : ℕ → ℕ → ℕ
this_interval interval remaining =
    if leb remaining (interval + interval / 2 + 1) then remaining else interval

unfoldable pub subset_end : ℕ → ℕ → ℕ → ℕ
subset_end cur end interval = if ltb end (cur + interval) then end else cur + interval - 1

-- The interval from the size of a file; a time step of no size is divided by, and an interval with
-- sums past an int has no defined value.
unfoldable pub inx_interval : ℕ → ℤ → Result ℕ
inx_interval arch_file_size (negsuc n) = err (foreign (negsuc n))
inx_interval arch_file_size (pos step_size) =
    let interval = (arch_file_size / step_size + 1) % int_mod in
    if (step_size == 0)
    then fault
    else if leb (2 ^ 31) (interval + interval / 2 + 1)
    then fault
    else ok interval

-- The base path and the number of the first file: 0 for a new archive.
unfoldable pub arch_target :
    (List ℕ → Result (List ℕ × List ℕ)) → List ℕ → Option (List NcAggElement) → Result (List ℕ × ℕ)
unfolding get_next_agg_ele_obj_path
arch_target split_path_by_key agg_collection none =
    get_agg_base_path split_path_by_key agg_collection >>= λ base_path. ok (base_path, 0)
arch_target split_path_by_key agg_collection (some files) =
    get_agg_base_path split_path_by_key agg_collection >>= λ base_path.
    ok (base_path, get_next_agg_ele_obj_path base_path files)

module _ {S : Type 0} (ops : FileOps S) where
  -- One file: whatever becomes of its subset and its registration, it is closed.
  unfoldable pub write_file : List ℕ → ℕ × ℕ → S → Result (Unit {0}) × S
  write_file path range s = and_then (ops.create path s) (λ s1.
      let r = and_then (ops.dump_subset path range s1) (ops.register path) in (r.0, ops.close r.1))

  -- The loop; without fuel it has not ended.
  unfoldable pub arch_loop : ℕ → List ℕ → ℕ → ℕ → ℕ → ℕ → S → Result (Unit {0}) × S
  unfolding write_file this_interval subset_end
  arch_loop zero base_path next_number interval cur end s = (fault, s)
  arch_loop (suc fuel) base_path next_number interval cur end s =
      let interval' = this_interval interval (end - cur + 1) in
      let last = subset_end cur end interval' in
      let file =
        and_then (write_file (arch_obj_path base_path next_number) (cur, last) s)
          (arch_loop fuel base_path (next_number + 1) interval' (last + 1) end) in
      if ltb cur end then file else (ok tt, s)

  unfoldable pub arch_with : Result (ℕ × (List ℕ × ℕ)) → ℕ → ℕ → S → Result (Unit {0}) × S
  unfolding arch_loop
  arch_with (ok (interval, (base_path, next_number))) start end s =
      arch_loop (end - start + 1) base_path next_number interval start end s
  arch_with (err e) start end s = (err e, s)
  arch_with fault start end s = (fault, s)

  -- archPartialTimeSeries, with the files of the description, if there is one. A file takes at least one
  -- time step, and the last test one turn.
  unfoldable pub arch_partial_time_series :
      (List ℕ → Result (List ℕ × List ℕ))
      → NcInqOut
      → List ℕ
      → Option (List NcAggElement)
      → ℕ
      → ℕ
      → ℕ
      → S
      → Result (Unit {0}) × S
  unfolding get_time_step_size inx_interval arch_target arch_with
  arch_partial_time_series split_path_by_key inq agg_collection files start end arch_file_size s =
      arch_with
        (get_time_step_size inq >>= λ size. inx_interval arch_file_size size >>= λ interval.
          arch_target split_path_by_key agg_collection files >>= λ target. ok (interval, target))
        start end s

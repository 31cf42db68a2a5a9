-- ===== src/Subset.antt =====
-- Subsets of a variable by its dimensions: the dimension loop of getSingleNcVarData and the loops of
-- resolveSubsetVar (api/lib/rcNcInq.cpp), and ncSubsetVar (microservices/netcdf/src/msiNcSubsetVar.cpp).
pub mod Bounds
pub mod Parse
pub mod Resolve
pub mod Resolved
use irods_netcdf.Base.{
  ℕ, suc, ◌+◌, Bool, true, false, ◌||◌, Option, none, some, List, [], ◌∷◌, ℤ, pos, negsuc, ◌+ℤ◌,
  ◌-ℤ◌, ltb_ℤ, leb_ℤ, if◌then◌else◌, get_elem?, strcmp_eq, ◌==◌, strcasecmp_eq, codes, atoll,
}
use irods_netcdf.Status.{
  Result, ok, err, ◌>>=◌, deref, code, netcdf_dim_mismatch_err, netcdf_unmatched_name_err,
  netcdf_invalid_data_type,
}
use irods_netcdf.NcType.{
  NcType, nc_short, nc_ushort, nc_int, nc_uint, nc_int64, nc_uint64, nc_float, nc_double,
}
use irods_netcdf.Inq.{NcGenDimOut, NcGenVarOut, NcInqOut}
use irods_netcdf.Vars.{DimRange, NcGetVarInp}

-- ncSubset_t
pub record NcSubset : Type 0 where
  pub subset_var_name : List ℕ
  pub start : ℤ
  pub stride : ℤ
  pub end : ℤ
  pub start_str : List ℕ
  pub end_str : List ℕ

-- The first subset of that name.
unfoldable pub find_subset : List ℕ → List NcSubset → Option NcSubset
find_subset name [] = none
find_subset name (s ∷ ss) =
    let rest = find_subset name ss in if strcmp_eq name s.subset_var_name then some s else rest

-- The test of a subset against the length of its dimension.
unfoldable pub out_of_range : NcSubset → ℕ → Bool
out_of_range s array_len =
    leb_ℤ (pos array_len) s.start || (leb_ℤ (pos array_len) s.end || ltb_ℤ s.end s.start)

-- start[j], count[j] and stride[j] for a dimension.
unfoldable pub dim_range : Option NcSubset → NcGenDimOut → Result DimRange
dim_range none dim = ok (record { start = pos 0; count = pos dim.array_len; stride = pos 1 })
dim_range (some s) dim =
    if out_of_range s dim.array_len
    then err (code netcdf_dim_mismatch_err)
    else ok (record { start = s.start; count = s.end -ℤ s.start +ℤ pos 1; stride = s.stride })

-- The loop over the dimensions of the variable.
unfoldable pub dim_ranges : List NcGenDimOut → List NcSubset → List ℕ → Result (List DimRange)
unfolding find_subset dim_range
dim_ranges dims subsets [] = ok []
dim_ranges dims subsets (dim_id ∷ dim_ids) = deref (get_elem? dims dim_id) >>= λ dim.
    dim_range (find_subset dim.name subsets) dim >>= λ r.
    dim_ranges dims subsets dim_ids >>= λ rs. ok (r ∷ rs)

-- getSingleNcVarData. `get_vars` is rcNcGetVarsByType, or _rsNcGetVarsByType where there is no
-- connection; a null ncVarSubset is no subsets.
unfoldable pub get_single_nc_var_data :
    {O : Type 0}
    → (NcGetVarInp → Result O)
    → ℕ
    → ℕ
    → NcInqOut
    → List NcSubset
    → Result (O × List DimRange)
unfolding dim_ranges
get_single_nc_var_data get_vars ncid var_inx inq subsets =
    deref (get_elem? inq.var var_inx) >>= λ v. dim_ranges inq.dim subsets v.dim_id >>= λ dims.
    get_vars (record { data_type = v.data_type; ncid = ncid; varid = v.id; dims = dims }) >>= λ out.
    ok (out, dims)

-- The first variable of that name.
unfoldable pub find_var : List ℕ → List NcGenVarOut → Option NcGenVarOut
find_var name [] = none
find_var name (v ∷ vs) =
    let rest = find_var name vs in if strcmp_eq name v.name then some v else rest

-- The read of ncSubsetVar, where the variable was found.
unfoldable pub subset_of :
    {O : Type 0}
    → (NcGetVarInp → Result O)
    → ℕ
    → NcInqOut
    → List NcSubset
    → Option NcGenVarOut
    → Result O
unfolding dim_ranges
subset_of get_vars ncid inq subsets none = err (code netcdf_unmatched_name_err)
subset_of get_vars ncid inq subsets (some v) = dim_ranges inq.dim subsets v.dim_id >>= λ dims.
    get_vars (record { data_type = v.data_type; ncid = ncid; varid = v.id; dims = dims })

-- ncSubsetVar
unfoldable pub nc_subset_var :
    {O : Type 0} → (NcGetVarInp → Result O) → ℕ → NcInqOut → List ℕ → List NcSubset → Result O
unfolding find_var subset_of
nc_subset_var get_vars ncid inq var_name subsets =
    subset_of get_vars ncid inq subsets (find_var var_name inq.var)

-- The indices that resolveSubsetVar looks for: -1, or a position.
abbrev pub minus_one : ℤ
minus_one = negsuc 0

abbrev pub is_minus_one : ℤ → Bool
is_minus_one (pos n) = false
is_minus_one (negsuc n) = n == 0

-- The loop over the values of a dimension variable: `ge_start` and `le_end` compare a value with the
-- bounds of the subset. It goes on until a value is past the end.
unfoldable pub resolve_loop : {V : Type 0} → (V → Bool) → (V → Bool) → ℕ → ℤ → ℤ → List V → ℤ × ℤ
resolve_loop ge_start le_end k start end [] = (start, end)
resolve_loop ge_start le_end k start end (v ∷ vs) =
    let start' = if is_minus_one start then (if ge_start v then pos k else start) else start in
    let rest = resolve_loop ge_start le_end (k + 1) start' (pos k) vs in
    if le_end v then rest else (start', end)

-- ncSubset[j].start and ncSubset[j].end set to what the search gives.
unfoldable pub with_bounds : NcSubset → ℤ × ℤ → NcSubset
with_bounds s (start, end) = record s { start = start; end = end }

-- The switches on the data type: integers, or doubles.
unfoldable pub is_int : NcType → Option Bool
is_int nc_short = some true
is_int nc_ushort = some true
is_int nc_int = some true
is_int nc_uint = some true
is_int nc_int64 = some true
is_int nc_uint64 = some true
is_int nc_float = some false
is_int nc_double = some false
is_int t = none

abbrev pub find_var_inx : List ℕ → List NcGenVarOut → ℕ
find_var_inx name [] = 0
find_var_inx name (v ∷ vs) =
    let rest = find_var_inx name vs in if strcmp_eq name v.name then 0 else suc rest

-- What the source takes from outside: the read of a variable, the elements of its buffer as rodsLong_t
-- or as double, the comparison and the reading of doubles, and the local time (asciToTime; `none`
-- where the text is no time and the result is not set).
pub record Dimensions (O D : Type 0) : Type 0 where
  pub get_vars : NcGetVarInp → Result O
  pub longs : O → List ℤ
  pub doubles : O → List D
  pub leb_double : D → D → Bool
  pub atof : List ℕ → D
  pub of_time : ℤ → D
  pub asci_to_time : List ℕ → Option ℤ

module _ {O D : Type 0} (env : Dimensions O D) where
  -- longStart and longEnd, by the name of the variable.
  unfoldable pub long_bound : List ℕ → List ℕ → Result ℤ
  long_bound name text =
      if strcasecmp_eq name (codes "time") then deref (env.asci_to_time text) else ok (atoll text)

  -- doubleStart and doubleEnd
  unfoldable pub double_bound : List ℕ → List ℕ → Result D
  double_bound name text =
      if strcasecmp_eq name (codes "time")
      then (deref (env.asci_to_time text) >>= λ t. ok (env.of_time t))
      else ok (env.atof text)

  -- The positions of a subset among the values of its variable.
  unfoldable pub search : Bool → NcGenVarOut → NcSubset → O → Result (ℤ × ℤ)
  unfolding long_bound double_bound resolve_loop
  search true v s out = long_bound v.name s.start_str >>= λ long_start.
      long_bound v.name s.end_str >>= λ long_end. ok (
        resolve_loop (λ x. leb_ℤ long_start x) (λ x. leb_ℤ x long_end) 0 minus_one minus_one
          (env.longs out))
  search false v s out = double_bound v.name s.start_str >>= λ double_start.
      double_bound v.name s.end_str >>= λ double_end. ok (
        resolve_loop (λ x. env.leb_double double_start x) (λ x. env.leb_double x double_end) 0
          minus_one minus_one (env.doubles out))

  -- The read of the dimension variable and the search, by the kind of its values.
  unfoldable pub resolve_by_kind :
      ℕ → NcInqOut → NcSubset → NcGenVarOut → Option Bool → Result NcSubset
  unfolding search with_bounds get_single_nc_var_data
  resolve_by_kind ncid inq s v none = err (code netcdf_invalid_data_type)
  resolve_by_kind ncid inq s v (some int) =
      get_single_nc_var_data env.get_vars ncid (find_var_inx s.subset_var_name inq.var) inq []
      >>= λ out. search int v s out.0 >>= λ bounds. ok (with_bounds s bounds)

  unfoldable pub resolve_in : ℕ → NcInqOut → NcSubset → Option NcGenVarOut → Result NcSubset
  unfolding is_int resolve_by_kind
  resolve_in ncid inq s none = err (code netcdf_dim_mismatch_err)
  resolve_in ncid inq s (some v) = resolve_by_kind ncid inq s v (is_int v.data_type)

  -- One turn of the loop of resolveSubsetVar.
  unfoldable pub resolve_subset : ℕ → NcInqOut → NcSubset → Result NcSubset
  unfolding find_var resolve_in
  resolve_subset ncid inq s = resolve_in ncid inq s (find_var s.subset_var_name inq.var)

  -- resolveSubsetVar
  unfoldable pub resolve_subset_var : ℕ → NcInqOut → List NcSubset → Result (List NcSubset)
  unfolding resolve_subset
  resolve_subset_var ncid inq [] = ok []
  resolve_subset_var ncid inq (s ∷ ss) =
      resolve_subset ncid inq s >>= λ r. resolve_subset_var ncid inq ss >>= λ rs. ok (r ∷ rs)

-- ===== src/Rule/Dims.antt =====
-- msiNcGetDimNameInInqOut and msiNcGetDimLenInInqOut of microservices/netcdf/src: the dimension at a position
-- among those of a variable, those of the file, or the unlimited one.
pub mod Found
use irods_netcdf.Base.{
  ℕ, ◌==◌, Bool, true, false, Option, none, some, List, [], ◌∷◌, ℤ, pos, negsuc, to_int, ltb, leb,
  if◌then◌else◌, length, get_elem?, strcmp_eq,
}
use irods_netcdf.Status.{
  Result, ok, err, fault, Code, code, ◌>>=◌, deref, netcdf_var_count_out_of_range,
  netcdf_unmatched_name_err, netcdf_no_unlimited_dim,
}
use irods_netcdf.Inq.{NcGenDimOut, NcGenVarOut, NcInqOut}
use irods_netcdf.Rule.{MsParam, str_ms_t, int_ms_t, both, given, as_inq_out, as_str, null_name}

unfoldable pub same_id : ℤ → ℤ → Bool
same_id (pos a) (pos b) = a == b
same_id (negsuc a) (negsuc b) = a == b
same_id (pos a) (negsuc b) = false
same_id (negsuc a) (pos b) = false

-- The loop over the dimensions, which ends at the first one with the id; `found` is what the variable held
-- before.
unfoldable pub dim_with_id : {A : Type 0} → (NcGenDimOut → A) → ℤ → List NcGenDimOut → A → A
unfolding same_id
dim_with_id of_dim id [] found = found
dim_with_id of_dim id (d ∷ ds) found =
    let rest = dim_with_id of_dim id ds found in if same_id d.id id then of_dim d else rest

-- The loop over the variables, which does not end at a match.
unfoldable pub dims_of_vars :
    {A : Type 0}
    → (NcGenDimOut → A)
    → ℕ
    → List ℕ
    → List NcGenDimOut
    → List NcGenVarOut
    → A
    → Result A
unfolding dim_with_id
dims_of_vars of_dim inx name dims [] found = ok found
dims_of_vars of_dim inx name dims (v ∷ vs) found =
    let other = dims_of_vars of_dim inx name dims vs found in
    if strcmp_eq name v.name
    then (deref (get_elem? v.dim_id inx) >>= λ id.
        dims_of_vars of_dim inx name dims vs (dim_with_id of_dim (pos id) dims found))
    else other

-- What the two microservices keep of a dimension, with the value that stands for none.
pub record Kept (A : Type 0) : Type 0 where
  pub of_dim : NcGenDimOut → A
  pub nothing : A
  pub fill : Code → A → Result MsParam
  -- a dimension of the file is not tested
  pub fill_own : NcGenDimOut → Result MsParam

unfoldable pub fill_name : Code → Option (List ℕ) → Result MsParam
fill_name c none = err (code c)
fill_name c (some name) = ok (str_ms_t name)

-- arrayLen is an int, -1 for none.
unfoldable pub fill_len : Code → ℤ → Result MsParam
fill_len c (pos n) = ok (int_ms_t (pos n))
fill_len c (negsuc n) = if n == 0 then err (code c) else ok (int_ms_t (negsuc n))

unfoldable pub kept_name : Kept (Option (List ℕ))
unfolding fill_name
kept_name = record {
  of_dim = λ d. some d.name;
  nothing = none;
  fill = fill_name;
  fill_own = λ d. ok (str_ms_t d.name);
}

unfoldable pub kept_len : Kept ℤ
unfolding fill_len to_int
kept_len = record {
  of_dim = λ d. to_int (pos d.array_len);
  nothing = negsuc 0;
  fill = fill_len;
  fill_own = λ d. ok (int_ms_t (to_int (pos d.array_len)));
}

module _ {A : Type 0} (kept : Kept A) where
  unfoldable pub unlimited : NcInqOut → Result MsParam
  unfolding dim_with_id
  unlimited inq = elim inq.unlimdimid [
    | negsuc n ↦ err (code netcdf_no_unlimited_dim)
    | pos id ↦
        kept.fill netcdf_no_unlimited_dim (dim_with_id kept.of_dim (pos id) inq.dim kept.nothing)
  ]

  unfoldable pub of_name : ℕ → List ℕ → NcInqOut → Result MsParam
  unfolding dims_of_vars
  of_name inx name inq =
      if strcmp_eq name null_name
      then (deref (get_elem? inq.dim inx) >>= λ d. kept.fill_own d)
      else (dims_of_vars kept.of_dim inx name inq.dim inq.var kept.nothing >>= λ found.
          kept.fill netcdf_unmatched_name_err found)

  -- UNLIMITED_DIM_INX is -1; `limit` is what inx is compared with.
  unfoldable pub dim_at : ℕ → ℤ → NcInqOut → Option MsParam → Result MsParam
  unfolding unlimited of_name given as_str
  dim_at limit (pos inx) inq var_name =
      if leb limit inx
      then err (code netcdf_var_count_out_of_range)
      else (given var_name >>= λ p. as_str p >>= λ name. of_name inx name inq)
  dim_at limit (negsuc n) inq var_name =
      if ltb 0 n then err (code netcdf_var_count_out_of_range) else unlimited inq

module _ (parse_msp_for_pos_int : MsParam → ℤ) where
  unfoldable pub msi_nc_get_dim_name_in_inq_out :
      Option MsParam → Option MsParam → Option MsParam → Option (Unit {0}) → Result MsParam
  unfolding both given as_inq_out dim_at kept_name
  msi_nc_get_dim_name_in_inq_out inq_out inx var_name out = both inq_out inx >>= λ ps.
      given out >>= λ u. as_inq_out ps.0 >>= λ inq.
      dim_at kept_name (length inq.dim) (parse_msp_for_pos_int ps.1) inq var_name

  -- The position is compared with the number of variables.
  unfoldable pub msi_nc_get_dim_len_in_inq_out :
      Option MsParam → Option MsParam → Option MsParam → Option (Unit {0}) → Result MsParam
  unfolding both given as_inq_out dim_at kept_len
  msi_nc_get_dim_len_in_inq_out inq_out inx var_name out = both inq_out inx >>= λ ps.
      given out >>= λ u. as_inq_out ps.0 >>= λ inq.
      dim_at kept_len (length inq.var) (parse_msp_for_pos_int ps.1) inq var_name

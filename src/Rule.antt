-- ===== src/Rule.antt =====
-- The microservices of microservices/netcdf/src. Here those that look into the answer of an inquiry: guards on the
-- parameters of a rule, and positions and names of variables and attributes. The child modules have dimensions,
-- attribute values, elements of arrays, and the calls of the server.
pub mod Dims
pub mod Atts
pub mod Arrays
pub mod Calls
pub mod Inquire
use irods_netcdf.Base.{
  ℕ, ◌==◌, Bool, true, false, Option, none, some, List, [], ◌∷◌, ℤ, pos, negsuc, to_int, ltb, leb,
  if◌then◌else◌, length, get_elem?, strcmp_eq, codes,
}
use irods_netcdf.Status.{
  Result, ok, err, fault, code, ◌>>=◌, deref, user_null_input_err, user_param_type_err,
  netcdf_var_count_out_of_range, netcdf_unmatched_name_err, netcdf_no_unlimited_dim,
}
use irods_netcdf.NcType.{
  NcType, nc_byte, nc_char, nc_short, nc_int, nc_float, nc_double, nc_ubyte, nc_ushort, nc_uint,
  nc_int64, nc_uint64, nc_string, other,
}
use irods_netcdf.Inq.{NcGenDimOut, NcGenAttOut, NcGenVarOut, NcInqOut}
use irods_netcdf.Subset.{find_var}

-- msParam_t: the type with what inOutStruct points to. A null pointer to a parameter is `none`.
pub data MsParam : Type 0 where
  nc_inq_out_ms_t : NcInqOut → MsParam
  nc_inq_grps_out_ms_t : List (List ℕ) → MsParam
  str_ms_t : List ℕ → MsParam
  int_ms_t : ℤ → MsParam
  other_ms_t : List ℕ → MsParam

-- The test of a microservice on its pointers, and its tests on the types of its parameters.
unfoldable pub both : {A B : Type 0} → Option A → Option B → Result (A × B)
both (some a) (some b) = ok (a, b)
both none b = err (code user_null_input_err)
both (some a) none = err (code user_null_input_err)

unfoldable pub given : {A : Type 0} → Option A → Result A
given (some a) = ok a
given none = err (code user_null_input_err)

unfoldable pub as_inq_out : MsParam → Result NcInqOut
as_inq_out (nc_inq_out_ms_t inq) = ok inq
as_inq_out _ = err (code user_param_type_err)

unfoldable pub as_grps : MsParam → Result (List (List ℕ))
as_grps (nc_inq_grps_out_ms_t names) = ok names
as_grps _ = err (code user_param_type_err)

unfoldable pub as_str : MsParam → Result (List ℕ)
as_str (str_ms_t s) = ok s
as_str _ = err (code user_param_type_err)

-- if (inx < 0 || inx >= n) return NETCDF_VAR_COUNT_OUT_OF_RANGE, and the access behind it.
unfoldable pub at_inx : {A : Type 0} → ℤ → List A → Result A
at_inx (negsuc n) xs = err (code netcdf_var_count_out_of_range)
at_inx (pos i) xs =
    if leb (length xs) i then err (code netcdf_var_count_out_of_range) else deref (get_elem? xs i)

unfoldable pub matched : {A : Type 0} → Option A → Result A
matched none = err (code netcdf_unmatched_name_err)
matched (some a) = ok a

abbrev pub null_name : List ℕ
null_name = codes "null"

unfoldable pub nc_type_int : NcType → ℤ
nc_type_int nc_byte = pos 1
nc_type_int nc_char = pos 2
nc_type_int nc_short = pos 3
nc_type_int nc_int = pos 4
nc_type_int nc_float = pos 5
nc_type_int nc_double = pos 6
nc_type_int nc_ubyte = pos 7
nc_type_int nc_ushort = pos 8
nc_type_int nc_uint = pos 9
nc_type_int nc_int64 = pos 10
nc_type_int nc_uint64 = pos 11
nc_type_int nc_string = pos 12
nc_type_int (other n) = pos n

-- Each gives what is filled into outParam, the pointer to which is `out`.
unfoldable pub msi_nc_get_nvars_in_inq_out : Option MsParam → Option (Unit {0}) → Result MsParam
unfolding both as_inq_out
msi_nc_get_nvars_in_inq_out inq_out out =
    both inq_out out >>= λ ps. as_inq_out ps.0 >>= λ inq. ok (int_ms_t (pos (length inq.var)))

unfoldable pub msi_nc_get_format_in_inq_out : Option MsParam → Option (Unit {0}) → Result MsParam
unfolding both as_inq_out
msi_nc_get_format_in_inq_out inq_out out =
    both inq_out out >>= λ ps. as_inq_out ps.0 >>= λ inq. ok (int_ms_t (pos inq.format))

unfoldable pub msi_nc_get_n_grps_in_inq_out : Option MsParam → Option (Unit {0}) → Result MsParam
unfolding both as_grps
msi_nc_get_n_grps_in_inq_out grps_out out =
    both grps_out out >>= λ ps. as_grps ps.0 >>= λ names. ok (int_ms_t (pos (length names)))

-- The number of the dimensions, or of the attributes, of the file or of a variable.
unfoldable pub count_in :
    (NcInqOut → ℕ)
    → (NcGenVarOut → ℕ)
    → Option MsParam
    → Option MsParam
    → Option (Unit {0})
    → Result MsParam
unfolding both given as_inq_out as_str matched find_var
count_in of_file of_var inq_out var_name out = both inq_out var_name >>= λ ps. given out >>= λ u.
    as_inq_out ps.0 >>= λ inq. as_str ps.1 >>= λ name.
    if strcmp_eq name null_name
    then ok (int_ms_t (pos (of_file inq)))
    else (matched (find_var name inq.var) >>= λ v. ok (int_ms_t (pos (of_var v))))

unfoldable pub msi_nc_get_ndims_in_inq_out :
    Option MsParam → Option MsParam → Option (Unit {0}) → Result MsParam
unfolding count_in
msi_nc_get_ndims_in_inq_out = count_in (λ inq. length inq.dim) (λ v. length v.dim_id)

unfoldable pub msi_nc_get_natts_in_inq_out :
    Option MsParam → Option MsParam → Option (Unit {0}) → Result MsParam
unfolding count_in
msi_nc_get_natts_in_inq_out = count_in (λ inq. length inq.gatt) (λ v. length v.att)

unfoldable pub msi_nc_get_var_type_in_inq_out :
    Option MsParam → Option MsParam → Option (Unit {0}) → Result MsParam
unfolding both given as_inq_out as_str matched find_var nc_type_int
msi_nc_get_var_type_in_inq_out inq_out var_name out = both inq_out var_name >>= λ ps.
    given out >>= λ u. as_inq_out ps.0 >>= λ inq. as_str ps.1 >>= λ name.
    matched (find_var name inq.var) >>= λ v. ok (int_ms_t (nc_type_int v.data_type))

-- An id below zero is taken for no match.
unfoldable pub nonneg_id : ℤ → Result MsParam
nonneg_id (pos n) = ok (int_ms_t (pos n))
nonneg_id (negsuc n) = err (code netcdf_unmatched_name_err)

-- The variable by its position or by its name.
unfoldable pub var_id_of : NcInqOut → MsParam → Result MsParam
unfolding at_inx matched find_var nonneg_id
var_id_of inq (str_ms_t name) = matched (find_var name inq.var) >>= λ v. nonneg_id v.id
var_id_of inq (int_ms_t inx) = at_inx inx inq.var >>= λ v. ok (int_ms_t v.id)
var_id_of inq _ = err (code user_param_type_err)

unfoldable pub msi_nc_get_var_id_in_inq_out :
    Option MsParam → Option MsParam → Option (Unit {0}) → Result MsParam
unfolding both given as_inq_out var_id_of
msi_nc_get_var_id_in_inq_out inq_out which_var out = both inq_out which_var >>= λ ps.
    given out >>= λ u. as_inq_out ps.0 >>= λ inq. var_id_of inq ps.1

-- parseMspForPosInt is a function of iRODS: a parameter, which gives an int or the status of an error.
module _ (parse_msp_for_pos_int : MsParam → ℤ) where
  unfoldable pub msi_nc_get_var_name_in_inq_out :
      Option MsParam → Option MsParam → Option (Unit {0}) → Result MsParam
  unfolding both given as_inq_out at_inx
  msi_nc_get_var_name_in_inq_out inq_out inx out = both inq_out inx >>= λ ps. given out >>= λ u.
      as_inq_out ps.0 >>= λ inq.
      at_inx (parse_msp_for_pos_int ps.1) inq.var >>= λ v. ok (str_ms_t v.name)

  unfoldable pub msi_nc_get_grp_in_inq_out :
      Option MsParam → Option MsParam → Option (Unit {0}) → Result MsParam
  unfolding both given as_grps at_inx
  msi_nc_get_grp_in_inq_out grps_out inx out = both grps_out inx >>= λ ps. given out >>= λ u.
      as_grps ps.0 >>= λ names.
      at_inx (parse_msp_for_pos_int ps.1) names >>= λ name. ok (str_ms_t name)

  -- The attribute of the file, or of the first variable of the name.
  unfoldable pub msi_nc_get_att_name_in_inq_out :
      Option MsParam → Option MsParam → Option MsParam → Option (Unit {0}) → Result MsParam
  unfolding both given as_inq_out as_str at_inx matched find_var
  msi_nc_get_att_name_in_inq_out inq_out inx var_name out = both inq_out inx >>= λ ps.
      given out >>= λ u. as_inq_out ps.0 >>= λ inq. given var_name >>= λ p. as_str p >>= λ name.
      (if strcmp_eq name null_name
        then ok inq.gatt
        else (matched (find_var name inq.var) >>= λ v. ok v.att))
      >>= λ atts. at_inx (parse_msp_for_pos_int ps.1) atts >>= λ a. ok (str_ms_t a.name)

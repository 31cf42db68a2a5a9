-- ===== src/Rule/Arrays.antt =====
-- The microservices of microservices/netcdf/src on the answers of an inquiry by id and of a read: lengths, types
-- and single elements.
use irods_netcdf.Base.{
  ℕ, Option, none, some, List, ℤ, pos, negsuc, to_int, leb, if◌then◌else◌, length, get_elem?,
}
use irods_netcdf.Status.{
  Result, ok, err, code, ◌>>=◌, deref, user_null_input_err, user_param_type_err,
  netcdf_dim_mismatch_err, netcdf_invalid_data_type,
}
use irods_netcdf.NcType.{
  NcType, nc_byte, nc_char, nc_short, nc_int, nc_float, nc_double, nc_ubyte, nc_ushort, nc_uint,
  nc_int64, nc_uint64, nc_string, other,
}
use irods_netcdf.Vars.{NcGetVarInp, NcGetVarOut}
use irods_netcdf.Server.Library.{NcInqWithIdOut}
use irods_netcdf.Rule.{both, nc_type_int}

-- msParam_t with the types that these microservices know; `V` is an element of an array, and a null pointer to
-- the output of a read or to its array is `none`.
pub data ArrayParam (V : Type 0) : Type 0 where
  nc_inq_with_id_out_ms_t : NcInqWithIdOut → ArrayParam V
  nc_get_var_inp_ms_t : NcGetVarInp → ArrayParam V
  nc_get_var_out_ms_t : Option (NcGetVarOut V) → ArrayParam V
  other_ms_t : List ℕ → ArrayParam V

-- What an element is filled in as.
pub data Filled (V : Type 0) : Type 0 where
  as_int : ℤ → Filled V
  as_char as_str as_int_element as_float as_double : V → Filled V

unfoldable pub read_out : {V : Type 0} → Option (NcGetVarOut V) → Result (NcGetVarOut V)
read_out none = err (code user_null_input_err)
read_out (some o) = ok o

-- The range test, with the length as the parameter gives it.
unfoldable pub in_range : ℤ → ℕ → Result ℕ
in_range (negsuc n) len = err (code netcdf_dim_mismatch_err)
in_range (pos i) len = if leb len i then err (code netcdf_dim_mismatch_err) else ok i

module _ {V : Type 0} where
  -- msiNcGetArrayLen: a length is cut to an int.
  unfoldable pub array_len_of : ArrayParam V → Result ℤ
  unfolding read_out to_int
  array_len_of (nc_inq_with_id_out_ms_t o) = ok (to_int (pos o.mylong))
  array_len_of (nc_get_var_out_ms_t o) = read_out o >>= λ out. ok (to_int (pos out.len))
  array_len_of _ = err (code user_param_type_err)

  unfoldable pub msi_nc_get_array_len : Option (ArrayParam V) → Option (Unit {0}) → Result ℤ
  unfolding both array_len_of
  msi_nc_get_array_len inp out = both inp out >>= λ ps. array_len_of ps.0

  unfoldable pub num_dim_of : ArrayParam V → Result ℤ
  num_dim_of (nc_inq_with_id_out_ms_t o) = ok (pos (length o.int_array))
  num_dim_of (nc_get_var_inp_ms_t inp) = ok (pos (length inp.dims))
  num_dim_of _ = err (code user_param_type_err)

  unfoldable pub msi_nc_get_num_dim : Option (ArrayParam V) → Option (Unit {0}) → Result ℤ
  unfolding both num_dim_of
  msi_nc_get_num_dim inp out = both inp out >>= λ ps. num_dim_of ps.0

  unfoldable pub data_type_of : ArrayParam V → Result ℤ
  unfolding read_out nc_type_int
  data_type_of (nc_inq_with_id_out_ms_t o) = ok (nc_type_int o.data_type)
  data_type_of (nc_get_var_inp_ms_t inp) = ok (nc_type_int inp.data_type)
  data_type_of (nc_get_var_out_ms_t o) = read_out o >>= λ out. ok (nc_type_int out.data_type)
  data_type_of (other_ms_t name) = err (code user_param_type_err)

  unfoldable pub msi_nc_get_data_type : Option (ArrayParam V) → Option (Unit {0}) → Result ℤ
  unfolding both data_type_of
  msi_nc_get_data_type inp out = both inp out >>= λ ps. data_type_of ps.0

  -- The cases of msiNcGetElementInArray: none for the two short types, and a double is read as a 64-bit int.
  unfoldable pub filled_as : NcType → Result V → Result (Filled V)
  filled_as nc_char access = access >>= λ v. ok (as_char v)
  filled_as nc_byte access = access >>= λ v. ok (as_char v)
  filled_as nc_ubyte access = access >>= λ v. ok (as_char v)
  filled_as nc_string access = access >>= λ v. ok (as_str v)
  filled_as nc_int access = access >>= λ v. ok (as_int_element v)
  filled_as nc_uint access = access >>= λ v. ok (as_int_element v)
  filled_as nc_float access = access >>= λ v. ok (as_float v)
  filled_as nc_int64 access = access >>= λ v. ok (as_double v)
  filled_as nc_uint64 access = access >>= λ v. ok (as_double v)
  filled_as nc_double access = access >>= λ v. ok (as_double v)
  filled_as nc_short access = err (code netcdf_invalid_data_type)
  filled_as nc_ushort access = err (code netcdf_invalid_data_type)
  filled_as (other n) access = err (code netcdf_invalid_data_type)

  unfoldable pub element_of : ℤ → ArrayParam V → Result (Filled V)
  unfolding read_out in_range filled_as
  element_of inx (nc_inq_with_id_out_ms_t o) = in_range inx (length o.int_array) >>= λ i.
      deref (get_elem? o.int_array i) >>= λ id. ok (as_int (pos id))
  element_of inx (nc_get_var_out_ms_t o) = read_out o >>= λ out.
      in_range inx out.len >>= λ i. filled_as out.data_type (deref (get_elem? out.buf i))
  element_of inx _ = err (code user_param_type_err)

  -- The position comes from parseMspForPosInt; a null pointer to its parameter is `none`.
  unfoldable pub msi_nc_get_element_in_array :
      Option (ArrayParam V) → Option ℤ → Option (Unit {0}) → Result (Filled V)
  unfolding both element_of
  msi_nc_get_element_in_array inp inx out =
      both inp inx >>= λ ps. both (some ps) out >>= λ qs. element_of ps.1 ps.0

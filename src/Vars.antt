-- ===== src/Vars.antt =====
-- Reading a part of a variable: getSizeForGetVars of api/lib/rcNcGetVarsByType.cpp and
-- _rsNcGetVarsByType of api/lib/_rsNcGetVarsByType.cpp. The netCDF library is a parameter.
pub mod Size
pub mod Buffer
use irods_netcdf.Base.{
  ℕ, zero, suc, ◌+◌, ◌-◌, ◌*◌, ◌/◌, ◌%◌, ◌^◌, Bool, true, false, Option, none, some, List, [], ◌∷◌,
  ◌++◌, ℤ, pos, negsuc, ltb, leb, ◌==◌, if◌then◌else◌, length, drop, replicate, codes,
}
use irods_netcdf.Status.{
  Result, ok, err, fault, ◌>>=◌, code, code_minus, foreign, user_null_input_err,
  netcdf_var_count_out_of_range, netcdf_invalid_data_type, netcdf_get_vars_err,
}
use irods_netcdf.NcType.{
  NcType, nc_byte, nc_char, nc_short, nc_int, nc_float, nc_double, nc_ubyte, nc_ushort, nc_uint,
  nc_int64, nc_uint64, nc_string, other,
}

-- One dimension of a request: start[i], count[i] and stride[i] of ncGetVarInp_t (rodsLong_t).
pub record DimRange : Type 0 where
  pub start : ℤ
  pub count : ℤ
  pub stride : ℤ

-- ncGetVarInp_t; the three arrays have ndim entries.
pub record NcGetVarInp : Type 0 where
  pub data_type : NcType
  pub ncid : ℕ
  pub varid : ℤ
  pub dims : List DimRange

-- An int is kept as its bit pattern.
abbrev pub int_mod : ℕ
int_mod = 2 ^ 32

abbrev pub is_negative : ℕ → Bool
is_negative pattern = leb (2 ^ 31) pattern

abbrev pub int_of_pattern : ℕ → ℤ
int_of_pattern pattern = if is_negative pattern then negsuc (int_mod - 1 - pattern) else pos pattern

-- A stride that is not positive is set to 1.
unfoldable pub fix_stride : ℤ → ℕ
fix_stride (pos zero) = 1
fix_stride (pos (suc n)) = suc n
fix_stride (negsuc n) = 1

-- The loop of getSizeForGetVars: `len` and the dimensions with the strides that it sets.
unfoldable pub size_loop : ℕ → List DimRange → Result (ℕ × List DimRange)
unfolding fix_stride
size_loop len [] = ok (len, [])
size_loop len (d ∷ ds) = elim d.count [
  | negsuc n ↦ err (code netcdf_var_count_out_of_range)
  | pos c ↦
      if c == 0
      then err (code netcdf_var_count_out_of_range)
      else (let stride = fix_stride d.stride in
          size_loop ((len * ((c - 1) / stride + 1)) % int_mod) ds >>= λ r.
          ok (r.0, record d { stride = pos stride } ∷ r.1))
]

unfoldable pub get_size_for_get_vars : List DimRange → Result (ℕ × List DimRange)
unfolding size_loop
get_size_for_get_vars = size_loop 1

-- How the library is called: nc_get_vara_T, or nc_get_vars_T, by the type T.
pub data Kind : Type 0 where
  text uchar string int uint short ushort longlong ulonglong float double : Kind

pub record NcGet : Type 0 where
  pub kind : Kind
  pub ncid : ℕ
  pub varid : ℤ
  pub dims : List DimRange
  pub strided : Bool

-- The case of the switch: the call, the size of an element of the buffer and the packing name.
unfoldable pub type_case : NcType → Option (Kind × ℕ × List ℕ)
type_case nc_char = some (text, 1, codes "charDataArray_PI")
type_case nc_byte = some (uchar, 1, codes "charDataArray_PI")
type_case nc_ubyte = some (uchar, 1, codes "charDataArray_PI")
type_case nc_string = some (string, 8, codes "strDataArray_PI")
type_case nc_int = some (int, 4, codes "intDataArray_PI")
type_case nc_uint = some (uint, 4, codes "intDataArray_PI")
type_case nc_short = some (short, 2, codes "int16DataArray_PI")
type_case nc_ushort = some (ushort, 2, codes "int16DataArray_PI")
type_case nc_int64 = some (longlong, 8, codes "int64DataArray_PI")
type_case nc_uint64 = some (ulonglong, 8, codes "int64DataArray_PI")
type_case nc_float = some (float, 4, codes "intDataArray_PI")
type_case nc_double = some (double, 8, codes "int64DataArray_PI")
type_case (other n) = none

-- ncGetVarOut_t with its dataArray_t; `buf` has one entry for each element.
pub record NcGetVarOut (V : Type 0) : Type 0 where
  pub data_type_pi : List ℕ
  pub data_type : NcType
  pub len : ℕ
  pub buf : List V

-- What a call of the library gives: NC_NOERR with what it writes to the buffer, or its status.
pub data NcReply (V : Type 0) : Type 0 where
  noerr : List V → NcReply V
  failed : ℤ → NcReply V

module _ {V : Type 0} (zero_value : V) (nc_get : NcGet → NcReply V) where
  -- The library writes to the front of a buffer that calloc made, and past its end if it has more.
  pub fill_buffer : List V → ℕ → Result (List V)
  fill_buffer written len =
      if ltb len (length written)
      then fault
      else ok (written ++ replicate (len - length written) zero_value)

  read_vars : NcGetVarInp → ℕ → List DimRange → Kind → List ℕ → Result (NcGetVarOut V)
  unfolding fill_buffer
  read_vars inp len dims kind data_type_pi =
      let has_stride = false in
      elim (nc_get (record {
        kind = kind;
        ncid = inp.ncid;
        varid = inp.varid;
        dims = dims;
        strided = has_stride;
      })) [
        | noerr written ↦ fill_buffer written len >>= λ buf. ok (record {
          data_type_pi = data_type_pi;
          data_type = inp.data_type;
          len = len;
          buf = buf;
        })
        | failed status ↦ err (code_minus netcdf_get_vars_err status)
      ]

  -- _rsNcGetVarsByType; `none` is a null input. It returns a length that is not positive
  -- as its status, and no output (`none`) with it. The arrays for the library are copied before
  -- getSizeForGetVars sets the strides.
  pub rs_nc_get_vars_by_type : Option NcGetVarInp → Result (Option (NcGetVarOut V))
  unfolding read_vars
  rs_nc_get_vars_by_type none = err (code user_null_input_err)
  rs_nc_get_vars_by_type (some inp) = get_size_for_get_vars inp.dims >>= λ r.
      if (r.0 == 0)
      then ok none
      else if is_negative r.0
      then err (foreign (int_of_pattern r.0))
      else elim (type_case inp.data_type) [
        | none ↦ err (code netcdf_invalid_data_type)
        | some (kind, size, data_type_pi) ↦
            read_vars inp r.0 inp.dims kind data_type_pi >>= λ out. ok (some out)
      ]

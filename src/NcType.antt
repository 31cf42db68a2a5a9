-- ===== src/NcType.antt =====
-- The netCDF data types (api/include/ncGetVarsByType.hpp), their sizes (getDataTypeSize of
-- api/lib/rcNcGetVarsByType.cpp) and their names (getNcTypeStr of api/lib/rcNcInq.cpp, parseStrToNcType
-- of microservices/netcdf/include/netcdfParseUtilities.hpp).
use irods_netcdf.Base.{ℕ, List, codes, strcmp_eq, if◌then◌else◌}
use irods_netcdf.Status.{Result, ok, err, code, netcdf_invalid_data_type}

-- An int that is no data type is kept, as `other`.
pub data NcType : Type 0 where
  nc_byte nc_char nc_short nc_int nc_float nc_double : NcType
  nc_ubyte nc_ushort nc_uint nc_int64 nc_uint64 nc_string : NcType
  other : ℕ → NcType

-- getDataTypeSize, with the sizes of a 64-bit machine. The error of the source stands behind the
-- last `break` and is never reached: an unknown type has size 0.
unfoldable pub get_data_type_size : NcType → Result ℕ
get_data_type_size nc_char = ok 1
get_data_type_size nc_byte = ok 1
get_data_type_size nc_ubyte = ok 1
get_data_type_size nc_string = ok 8
get_data_type_size nc_int = ok 4
get_data_type_size nc_uint = ok 4
get_data_type_size nc_short = ok 2
get_data_type_size nc_ushort = ok 2
get_data_type_size nc_int64 = ok 8
get_data_type_size nc_uint64 = ok 8
get_data_type_size nc_float = ok 4
get_data_type_size nc_double = ok 8
get_data_type_size (other n) = ok 0

-- getNcTypeStr; there is no case for NC_USHORT.
unfoldable pub get_nc_type_str : NcType → Result (List ℕ)
get_nc_type_str nc_char = ok (codes "char")
get_nc_type_str nc_byte = ok (codes "byte")
get_nc_type_str nc_ubyte = ok (codes "ubyte")
get_nc_type_str nc_short = ok (codes "short")
get_nc_type_str nc_string = ok (codes "string")
get_nc_type_str nc_int = ok (codes "int")
get_nc_type_str nc_uint = ok (codes "uint")
get_nc_type_str nc_int64 = ok (codes "longlong")
get_nc_type_str nc_uint64 = ok (codes "ulonglong")
get_nc_type_str nc_float = ok (codes "float")
get_nc_type_str nc_double = ok (codes "double")
get_nc_type_str nc_ushort = err (code netcdf_invalid_data_type)
get_nc_type_str (other n) = err (code netcdf_invalid_data_type)

-- parseStrToNcType
unfoldable pub parse_str_to_nc_type : List ℕ → Result NcType
parse_str_to_nc_type s =
    if strcmp_eq s (codes "NC_BYTE")
    then ok nc_byte
    else if strcmp_eq s (codes "NC_CHAR")
    then ok nc_char
    else if strcmp_eq s (codes "NC_SHORT")
    then ok nc_short
    else if strcmp_eq s (codes "NC_INT")
    then ok nc_int
    else if strcmp_eq s (codes "NC_FLOAT")
    then ok nc_float
    else if strcmp_eq s (codes "NC_DOUBLE")
    then ok nc_double
    else if strcmp_eq s (codes "NC_UBYTE")
    then ok nc_ubyte
    else if strcmp_eq s (codes "NC_USHORT")
    then ok nc_ushort
    else if strcmp_eq s (codes "NC_UINT")
    then ok nc_uint
    else if strcmp_eq s (codes "NC_INT64")
    then ok nc_int64
    else if strcmp_eq s (codes "NC_UINT64")
    then ok nc_uint64
    else if strcmp_eq s (codes "NC_STRING")
    then ok nc_string
    else err (code netcdf_invalid_data_type)

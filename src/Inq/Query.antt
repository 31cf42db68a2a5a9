-- ===== src/Inq/Query.antt =====
-- Asking a file for what it holds: ncInq, inqAtt and getAttValue of api/lib/rcNcInq.cpp. The calls of the
-- netCDF library on the file are parameters.
use irods_netcdf.Base.{
  ℕ, zero, suc, ◌+◌, ◌-◌, ◌*◌, ◌/◌, ◌%◌, Bool, true, ◌||◌, not, Option, none, some, List, [], ◌∷◌,
  ◌++◌, ℤ, pos, negsuc, ◌⊎◌, ltb, leb, ◌==◌, if◌then◌else◌, length, replicate, codes,
}
use irods_netcdf.Status.{
  Result, ok, err, fault, ◌>>=◌, code, or_fail, netcdf_inq_err, netcdf_inq_format_err,
  netcdf_inq_id_err, netcdf_inq_dim_err, netcdf_inq_vars_err, netcdf_inq_att_err,
  netcdf_get_att_err, netcdf_invalid_data_type,
}
use irods_netcdf.NcType.{
  NcType, nc_byte, nc_char, nc_short, nc_int, nc_float, nc_double, nc_ubyte, nc_ushort, nc_uint,
  nc_int64, nc_uint64, nc_string, other,
}
use irods_netcdf.Vars.{
  Kind, text, uchar, string, int, uint, short, ushort, longlong, ulonglong, float, double,
}
use irods_netcdf.Inq.{NcGenDimOut, NcGenAttOut, NcGenVarOut, NcInqOut}

-- ncInqInp_t; `native` is whether NATIVE_NETCDF_CALL_KW is given.
pub record NcInqInp : Type 0 where
  pub param_type : ℕ
  pub ncid : ℤ
  pub myid : ℤ
  pub flags : ℕ
  pub name : List ℕ
  pub native : Bool

-- What nc_inq_var gives.
pub record VarInfo : Type 0 where
  pub name : List ℕ
  pub data_type : NcType
  pub dim_ids : List ℕ
  pub natts : ℕ

-- The calls of the library on one file: the status of an error, or what the call gives. nc_inq gives
-- ndims, nvars, ngatts and unlimdimid, and nc_get_att the bytes that nc_get_att_T writes.
pub record NcLib : Type 0 where
  pub nc_inq : ℤ ⊎ (ℕ × ℕ × ℕ × ℤ)
  pub nc_inq_format : ℤ ⊎ ℕ
  pub nc_inq_dim : ℤ → ℤ ⊎ (List ℕ × ℕ)
  pub nc_inq_dimid : List ℕ → ℤ ⊎ ℤ
  pub nc_inq_var : ℤ → ℤ ⊎ VarInfo
  pub nc_inq_varid : List ℕ → ℤ ⊎ ℤ
  pub nc_inq_attname : ℤ → ℤ → ℤ ⊎ List ℕ
  pub nc_inq_att : ℤ → List ℕ → ℤ ⊎ (NcType × ℕ)
  pub nc_get_att : Kind → ℤ → List ℕ → ℤ ⊎ List ℕ

abbrev pub nc_global : ℤ
nc_global = negsuc 0

abbrev pub nc_var_bit : ℕ
nc_var_bit = 1

abbrev pub nc_dim_bit : ℕ
nc_dim_bit = 2

abbrev pub nc_att_bit : ℕ
nc_att_bit = 4

abbrev pub nc_all_type : ℕ
nc_all_type = 7

abbrev pub nc_all_flag : ℕ
nc_all_flag = 1

-- n & bit, for a bit that is a power of two.
abbrev pub has_bit : ℕ → ℕ → Bool
has_bit n bit = not ((n / bit) % 2 == 0)

-- The case of the switch of getAttValue: the call, the bytes that are allocated, the packing name and
-- the len of the array.
unfoldable pub att_case : NcType → ℕ → Option (Kind × ℕ × List ℕ × ℕ)
att_case nc_char n = some (text, n + 1, codes "charDataArray_PI", n + 1)
att_case nc_byte n = some (uchar, n, codes "charDataArray_PI", n)
att_case nc_ubyte n = some (uchar, n, codes "charDataArray_PI", n)
att_case nc_short n = some (short, n * 2, codes "int16DataArray_PI", n)
att_case nc_ushort n = some (ushort, n * 2, codes "int16DataArray_PI", n)
att_case nc_string n = some (string, (n + 1) * 8, codes "strDataArray_PI", n)
att_case nc_int n = some (int, n * 4, codes "intDataArray_PI", n)
att_case nc_uint n = some (uint, n * 4, codes "intDataArray_PI", n)
att_case nc_int64 n = some (longlong, n * 8, codes "int64DataArray_PI", n)
att_case nc_uint64 n = some (ulonglong, n * 8, codes "int64DataArray_PI", n)
att_case nc_float n = some (float, n * 4, codes "intDataArray_PI", n)
att_case nc_double n = some (double, n * 8, codes "int64DataArray_PI", n)
att_case (other c) n = none

-- A buffer from calloc that the library writes to from its start; a write behind it is a fault.
unfoldable pub write_buf : ℕ → List ℕ → Result (List ℕ)
write_buf size bytes =
    if leb (length bytes) size then ok (bytes ++ replicate (size - length bytes) 0) else fault

-- The id of a dimension or variable: its index, or by name, or by id.
unfoldable pub id_by : (List ℕ → ℤ ⊎ ℤ) → List ℕ → ℤ → Result ℤ
id_by find [] myid = ok myid
id_by find (c ∷ cs) myid = or_fail netcdf_inq_id_err (find (c ∷ cs))

unfoldable pub id_at : (List ℕ → ℤ ⊎ ℤ) → Bool → NcInqInp → ℕ → Result ℤ
unfolding id_by
id_at find all inp i = if all then ok (pos i) else id_by find inp.name inp.myid

-- ndims, nvars and ngatts of an individual query.
unfoldable pub single : ℕ × ℕ × ℕ → ℕ × ℕ × ℕ
single n =
    if ltb 0 n.0
    then (1, n.1, n.2)
    else if ltb 0 n.2
    then (n.0, n.1, 1)
    else if ltb 0 n.1
    then (n.0, 1, n.2)
    else n

-- The types of items that are asked for.
abbrev pub param_type_of : NcInqInp → ℕ
param_type_of inp = if inp.param_type == 0 then nc_all_type else inp.param_type

abbrev pub one_if : Bool → ℕ
one_if b = if b then 1 else 0

-- allFlag
unfoldable pub all_flag : NcInqInp → Bool
all_flag inp =
    ltb 1 (
      one_if (has_bit (param_type_of inp) nc_var_bit)
      + one_if (has_bit (param_type_of inp) nc_att_bit)
      + one_if (has_bit (param_type_of inp) nc_dim_bit))
    || has_bit inp.flags nc_all_flag

abbrev pub if_wanted : Bool → ℕ → ℕ
if_wanted b n = if b then n else 0

unfoldable pub wanted : ℕ → ℕ × ℕ × ℕ × ℤ → ℕ × ℕ × ℕ
wanted p n = (
  if_wanted (has_bit p nc_dim_bit) n.0,
  if_wanted (has_bit p nc_var_bit) n.1,
  if_wanted (has_bit p nc_att_bit) n.2,
)

unfoldable pub counts : NcInqInp → ℕ × ℕ × ℕ × ℤ → ℕ × ℕ × ℕ
unfolding single all_flag wanted
counts inp n =
    if all_flag inp then wanted (param_type_of inp) n else single (wanted (param_type_of inp) n)

module _ (lib : NcLib) where
  unfoldable pub get_att_by : Option (Kind × ℕ × List ℕ × ℕ) → ℤ → List ℕ → Result (List ℕ)
  unfolding write_buf
  get_att_by none varid name = err (code netcdf_invalid_data_type)
  get_att_by (some c) varid name =
      or_fail netcdf_get_att_err (lib.nc_get_att c.0 varid name) >>= λ bytes. write_buf c.1 bytes

  -- getAttValue: the buffer of the array.
  unfoldable pub get_att_value : ℤ → List ℕ → NcType → ℕ → Result (List ℕ)
  unfolding get_att_by att_case
  get_att_value varid name data_type len = get_att_by (att_case data_type len) varid name

  -- The name of an attribute that is asked for by name, or by an id.
  unfoldable pub att_name_or_id : ℤ → List ℕ → ℤ → Result (List ℕ)
  att_name_or_id varid [] id = or_fail netcdf_inq_att_err (lib.nc_inq_attname varid id)
  att_name_or_id varid (c ∷ cs) id = ok (c ∷ cs)

  unfoldable pub att_name : Bool → ℤ → ℕ → List ℕ → ℤ → Result (List ℕ)
  unfolding att_name_or_id
  att_name all varid i name id =
      if all
      then or_fail netcdf_inq_att_err (lib.nc_inq_attname varid (pos i))
      else att_name_or_id varid name id

  unfoldable pub att_at : ℤ → ℕ → List ℕ → Result NcGenAttOut
  unfolding get_att_value
  att_at varid i name = or_fail netcdf_inq_att_err (lib.nc_inq_att varid name) >>= λ info.
      get_att_value varid name info.0 info.1 >>= λ value.
      ok (record { data_type = info.0; id = pos i; length = info.1; name = name; value = value })

  -- The loop of inqAtt, from index i with n turns left.
  unfoldable pub att_loop : Bool → ℤ → List ℕ → ℤ → ℕ → ℕ → Result (List NcGenAttOut)
  unfolding att_name att_at
  att_loop all varid name id i zero = ok []
  att_loop all varid name id i (suc n) = att_name all varid i name id >>= λ its_name.
      att_at varid i its_name >>= λ a.
      att_loop all varid name id (suc i) n >>= λ rest. ok (a ∷ rest)

  -- inqAtt; an attOut that is null stands with natt = 0 only.
  unfoldable pub inq_att : ℤ → ℕ → List ℕ → ℤ → Bool → Result (List NcGenAttOut)
  unfolding att_loop
  inq_att varid natt name id all = att_loop all varid name id 0 natt

  unfoldable pub dim_at : ℤ → Result NcGenDimOut
  dim_at id = or_fail netcdf_inq_dim_err (lib.nc_inq_dim id) >>= λ d.
      ok (record { array_len = d.1; id = id; myint = pos 0; name = d.0 })

  unfoldable pub dim_loop : Bool → NcInqInp → ℕ → ℕ → Result (List NcGenDimOut)
  unfolding id_at dim_at
  dim_loop all inp i zero = ok []
  dim_loop all inp i (suc n) = id_at lib.nc_inq_dimid all inp i >>= λ id.
      dim_at id >>= λ d. dim_loop all inp (suc i) n >>= λ rest. ok (d ∷ rest)

  -- The attributes are those of the variable of index i of the loop.
  unfoldable pub var_at : ℕ → ℤ → Result NcGenVarOut
  unfolding inq_att
  var_at i id = or_fail netcdf_inq_vars_err (lib.nc_inq_var id) >>= λ v.
      inq_att (pos i) v.natts [] (pos 0) true >>= λ atts. ok (record {
        data_type = v.data_type;
        id = id;
        myint = pos 0;
        name = v.name;
        att = atts;
        dim_id = v.dim_ids;
      })

  unfoldable pub var_loop : Bool → NcInqInp → ℕ → ℕ → Result (List NcGenVarOut)
  unfolding id_at var_at
  var_loop all inp i zero = ok []
  var_loop all inp i (suc n) = id_at lib.nc_inq_varid all inp i >>= λ id.
      var_at i id >>= λ v. var_loop all inp (suc i) n >>= λ rest. ok (v ∷ rest)

  -- The arrays of the answer.
  unfoldable pub inq_items : NcInqInp → Bool → ℕ × ℕ × ℕ → ℤ → ℕ → Result NcInqOut
  unfolding dim_loop var_loop inq_att
  inq_items inp all n unlimdimid format = dim_loop all inp 0 n.0 >>= λ dims.
      var_loop all inp 0 n.1 >>= λ vars. inq_att nc_global n.2 inp.name inp.myid all >>= λ gatts.
      ok (record { unlimdimid = unlimdimid; format = format; dim = dims; var = vars; gatt = gatts })

  -- ncInq
  unfoldable pub nc_inq : NcInqInp → Result NcInqOut
  unfolding counts all_flag inq_items
  nc_inq inp = or_fail netcdf_inq_err lib.nc_inq >>= λ n.
      or_fail netcdf_inq_format_err lib.nc_inq_format >>= λ format.
      inq_items inp (all_flag inp) (counts inp n) n.3 format

-- ===== src/Inq/File.antt =====
-- A netCDF file as what it holds, and a library that reads it: what ncInq (api/lib/rcNcInq.cpp) is measured
-- against.
use irods_netcdf.Base.{
  ℕ, suc, ◌<◌, ◌/◌, ◌%◌, ◌==◌, ◌||◌, Bool, ◌⊎◌, ◌+◌, ◌*◌, ◌-◌, ◌≤◌, ◌≡◌, Option, none, some, List,
  [], ◌∷◌, ◌++◌, ℤ, pos, inr, length, get_elem?, replicate, if◌then◌else◌,
}
use irods_netcdf.NcType.{
  NcType, nc_byte, nc_char, nc_short, nc_int, nc_float, nc_double, nc_ubyte, nc_ushort, nc_uint,
  nc_int64, nc_uint64, nc_string, other,
}
use irods_netcdf.Vars.{
  Kind, text, uchar, string, int, uint, short, ushort, longlong, ulonglong, float, double,
}
use irods_netcdf.Inq.{NcGenDimOut, NcGenAttOut, NcGenVarOut, NcInqOut}
use irods_netcdf.Inq.Query.{NcLib, nc_global}

pub record FileDim : Type 0 where
  pub name : List ℕ
  pub len : ℕ

-- The value is the bytes that the library gives for it.
pub record FileAtt : Type 0 where
  pub name : List ℕ
  pub data_type : NcType
  pub len : ℕ
  pub bytes : List ℕ

pub record FileVar : Type 0 where
  pub name : List ℕ
  pub data_type : NcType
  pub dim_ids : List ℕ
  pub atts : List FileAtt

pub record NcFile : Type 0 where
  pub dims : List FileDim
  pub vars : List FileVar
  pub atts : List FileAtt
  pub unlimdimid : ℤ
  pub format : ℕ

-- The call that gives the values of a type as they stand in the file; the other calls convert them.
abbrev pub kind_of : NcType → Option Kind
kind_of nc_char = some text
kind_of nc_byte = some uchar
kind_of nc_ubyte = some uchar
kind_of nc_short = some short
kind_of nc_ushort = some ushort
kind_of nc_int = some int
kind_of nc_uint = some uint
kind_of nc_int64 = some longlong
kind_of nc_uint64 = some ulonglong
kind_of nc_float = some float
kind_of nc_double = some double
kind_of nc_string = some string
kind_of (other c) = none

-- The bytes of a buffer for n values of a type, with the end of a text and a null pointer behind strings.
abbrev pub buffer_size : NcType → ℕ → ℕ
buffer_size nc_char n = n + 1
buffer_size nc_byte n = n
buffer_size nc_ubyte n = n
buffer_size nc_short n = n * 2
buffer_size nc_ushort n = n * 2
buffer_size nc_int n = n * 4
buffer_size nc_uint n = n * 4
buffer_size nc_float n = n * 4
buffer_size nc_int64 n = n * 8
buffer_size nc_uint64 n = n * 8
buffer_size nc_double n = n * 8
buffer_size nc_string n = n * 8 + 8
buffer_size (other c) n = 0

-- The library reads these attributes of a variable, or of the file: the values are asked for with the call
-- that belongs to their type.
pub record ReadsAtts (lib : NcLib) (varid : ℤ) (atts : List FileAtt) : Type 0 where
  pub attname :
      (i : ℕ) (a : FileAtt)
      → get_elem? atts i ≡ some a
      → lib.nc_inq_attname varid (pos i) ≡ inr a.name
  pub att :
      (i : ℕ) (a : FileAtt)
      → get_elem? atts i ≡ some a
      → lib.nc_inq_att varid a.name ≡ inr (a.data_type, a.len)
  pub value :
      (i : ℕ) (a : FileAtt) (kind : Kind)
      → get_elem? atts i ≡ some a
      → kind_of a.data_type ≡ some kind
      → lib.nc_get_att kind varid a.name ≡ inr a.bytes

-- The library reads the file: its ids are indices, and it finds what is there.
pub record Reads (lib : NcLib) (file : NcFile) : Type 0 where
  pub inq : lib.nc_inq ≡ inr (length file.dims, length file.vars, length file.atts, file.unlimdimid)
  pub inq_format : lib.nc_inq_format ≡ inr file.format
  pub inq_dim :
      (i : ℕ) (d : FileDim)
      → get_elem? file.dims i ≡ some d
      → lib.nc_inq_dim (pos i) ≡ inr (d.name, d.len)
  pub inq_var :
      (i : ℕ) (v : FileVar)
      → get_elem? file.vars i ≡ some v
      → lib.nc_inq_var (pos i)
        ≡ inr (record {
          name = v.name;
          data_type = v.data_type;
          dim_ids = v.dim_ids;
          natts = length v.atts;
        })
  pub global_atts : ReadsAtts lib nc_global file.atts
  pub var_atts :
      (i : ℕ) (v : FileVar) → get_elem? file.vars i ≡ some v → ReadsAtts lib (pos i) v.atts

-- The type of an attribute is known, and its bytes go into the buffer that is made for it.
abbrev pub Known : Option Kind → Type 0
Known none = ⊥
Known (some kind) = Unit {0}

abbrev pub Fits : FileAtt → Type 0
Fits a = Known (kind_of a.data_type) × (length a.bytes ≤ buffer_size a.data_type a.len)

abbrev pub AllFit : List FileAtt → Type 0
AllFit [] = Unit {0}
AllFit (a ∷ atts) = Fits a × AllFit atts

abbrev pub AllVarsFit : List FileVar → Type 0
AllVarsFit [] = Unit {0}
AllVarsFit (v ∷ vs) = AllFit v.atts × AllVarsFit vs

-- The buffer of a value: its bytes, and zeros up to what is allocated.
abbrev pub padded : FileAtt → List ℕ
padded a = a.bytes ++ replicate (buffer_size a.data_type a.len - length a.bytes) 0

-- What an inquiry for everything should give: the items with their indices as ids.
abbrev pub att_out : ℕ → FileAtt → NcGenAttOut
att_out i a = record {
  data_type = a.data_type;
  id = pos i;
  length = a.len;
  name = a.name;
  value = padded a;
}

abbrev pub atts_from : ℕ → List FileAtt → List NcGenAttOut
atts_from i [] = []
atts_from i (a ∷ atts) = att_out i a ∷ atts_from (suc i) atts

abbrev pub dim_out : ℤ → FileDim → NcGenDimOut
dim_out id d = record { array_len = d.len; id = id; myint = pos 0; name = d.name }

abbrev pub dims_from : ℕ → List FileDim → List NcGenDimOut
dims_from i [] = []
dims_from i (d ∷ dims) = dim_out (pos i) d ∷ dims_from (suc i) dims

abbrev pub var_out : ℤ → List NcGenAttOut → FileVar → NcGenVarOut
var_out id atts v = record {
  data_type = v.data_type;
  id = id;
  myint = pos 0;
  name = v.name;
  att = atts;
  dim_id = v.dim_ids;
}

abbrev pub vars_from : ℕ → List FileVar → List NcGenVarOut
vars_from i [] = []
vars_from i (v ∷ vs) = var_out (pos i) (atts_from 0 v.atts) v ∷ vars_from (suc i) vs

abbrev pub contents : NcFile → NcInqOut
contents file = record {
  unlimdimid = file.unlimdimid;
  format = file.format;
  dim = dims_from 0 file.dims;
  var = vars_from 0 file.vars;
  gatt = atts_from 0 file.atts;
}

-- The types of items that paramType asks for: bit 0 is for variables, bit 1 for dimensions and bit 2 for
-- attributes, and 0 is for all of them.
abbrev pub asks_vars : ℕ → Bool
asks_vars p = (p == 0) || (p % 2 == 1)

abbrev pub asks_dims : ℕ → Bool
asks_dims p = (p == 0) || (p / 2 % 2 == 1)

abbrev pub asks_atts : ℕ → Bool
asks_atts p = (p == 0) || (p / 4 % 2 == 1)

-- All items of the types are asked for: by the first bit of flags, or because there is more than one type.
abbrev pub AsksAll : ℕ → ℕ → Type 0
AsksAll p flags = (p ≡ 0) ⊎ (1 < p % 2 + p / 2 % 2 + p / 4 % 2) ⊎ (flags % 2 ≡ 1)

-- The part of a file that paramType asks for.
abbrev pub part : ℕ → NcFile → NcFile
part p file = record {
  dims = if asks_dims p then file.dims else [];
  vars = if asks_vars p then file.vars else [];
  atts = if asks_atts p then file.atts else [];
  unlimdimid = file.unlimdimid;
  format = file.format;
}

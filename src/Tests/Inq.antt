-- ===== src/Tests/Inq.antt =====
-- A file of one dimension and two variables, and a library that reads it.
use irods_netcdf.Base.{
  ℕ, zero, suc, ◌≡◌, refl, ap, subst, ◌∙◌, if◌then◌else◌, Bool, true, false, Option, none, some,
  List, [], ◌∷◌, ◌++◌, ℤ, pos, negsuc, ◌⊎◌, inl, inr, length, get_elem?, codes, arith,
}
use irods_netcdf.Status.{ok}
use irods_netcdf.NcType.{nc_double, nc_char, nc_short, nc_string}
use irods_netcdf.Vars.{
  Kind, text, uchar, string, int, uint, short, ushort, longlong, ulonglong, float, double,
}
use irods_netcdf.Inq.{NcInqOut}
use irods_netcdf.Inq.Query.{NcLib, NcInqInp, VarInfo, nc_inq, get_att_value}
use irods_netcdf.Inq.File.{
  FileDim, FileAtt, FileVar, kind_of, NcFile, ReadsAtts, Reads, contents, dim_out, var_out,
  atts_from, part,
}
use irods_netcdf.Inq.Whole.{nc_inq-contents}
use irods_netcdf.Inq.Single.{nc_inq-atts_of_0, nc_inq-one_dim, get_att_value-tail}

abbrev att_or : {A : Type 0} → (FileAtt → A) → Option FileAtt → ℤ ⊎ A
att_or f none = inl (negsuc 42)
att_or f (some a) = inr (f a)

abbrev dim_or : Option FileDim → ℤ ⊎ (List ℕ × ℕ)
dim_or none = inl (negsuc 45)
dim_or (some d) = inr (d.name, d.len)

abbrev info_of : FileVar → VarInfo
info_of v = record {
  name = v.name;
  data_type = v.data_type;
  dim_ids = v.dim_ids;
  natts = length v.atts;
}

abbrev var_or : Option FileVar → ℤ ⊎ VarInfo
var_or none = inl (negsuc 48)
var_or (some v) = inr (info_of v)

abbrev atts_of_var : Option FileVar → List FileAtt
atts_of_var none = []
atts_of_var (some v) = v.atts

abbrev same_kind : Kind → Kind → Bool
same_kind text text = true
same_kind uchar uchar = true
same_kind string string = true
same_kind int int = true
same_kind uint uint = true
same_kind short short = true
same_kind ushort ushort = true
same_kind longlong longlong = true
same_kind ulonglong ulonglong = true
same_kind float float = true
same_kind double double = true
same_kind _ _ = false

same_kind_refl : (k : Kind) → same_kind k k ≡ true
same_kind_refl text = refl
same_kind_refl uchar = refl
same_kind_refl string = refl
same_kind_refl int = refl
same_kind_refl uint = refl
same_kind_refl short = refl
same_kind_refl ushort = refl
same_kind_refl longlong = refl
same_kind_refl ulonglong = refl
same_kind_refl float = refl
same_kind_refl double = refl

-- Any other call than the one of the type is refused (NC_ERANGE).
abbrev given : Kind → FileAtt → Option Kind → ℤ ⊎ List ℕ
given kind a none = inl (negsuc 59)
given kind a (some own) = if (same_kind own kind) then inr a.bytes else inl (negsuc 59)

abbrev bytes_as : Kind → Option FileAtt → ℤ ⊎ List ℕ
bytes_as kind none = inl (negsuc 42)
bytes_as kind (some a) = given kind a (kind_of a.data_type)

given-own :
    (kind : Kind) (a : FileAtt)
    → kind_of a.data_type ≡ some kind
    → given kind a (kind_of a.data_type) ≡ inr a.bytes
given-own kind a own = rw (own, same_kind_refl kind) refl

module _ (file : NcFile) where
  abbrev dim_by : ℤ → ℤ ⊎ (List ℕ × ℕ)
  dim_by (pos i) = dim_or (get_elem? file.dims i)
  dim_by (negsuc i) = inl (negsuc 45)

  abbrev var_by : ℤ → ℤ ⊎ VarInfo
  var_by (pos i) = var_or (get_elem? file.vars i)
  var_by (negsuc i) = inl (negsuc 48)

  abbrev atts_by : ℤ → List FileAtt
  atts_by (pos i) = atts_of_var (get_elem? file.vars i)
  atts_by (negsuc i) = file.atts

  abbrev elem_by : List FileAtt → ℤ → Option FileAtt
  elem_by atts (pos i) = get_elem? atts i
  elem_by atts (negsuc i) = none

  -- Every variable has one attribute at most, which its name is not needed for.
  abbrev lib_of : NcLib
  lib_of = record {
    nc_inq = inr (length file.dims, length file.vars, length file.atts, file.unlimdimid);
    nc_inq_format = inr file.format;
    nc_inq_dim = dim_by;
    nc_inq_dimid = λ name. inr (pos 0);
    nc_inq_var = var_by;
    nc_inq_varid = λ name. inr (pos 1);
    nc_inq_attname = λ varid i. att_or (λ a. a.name) (elem_by (atts_by varid) i);
    nc_inq_att = λ varid name. att_or (λ a. (a.data_type, a.len)) (get_elem? (atts_by varid) 0);
    nc_get_att = λ kind varid name. bytes_as kind (get_elem? (atts_by varid) 0);
  }

  abbrev OneAtt : List FileAtt → Type 0
  OneAtt [] = Unit {0}
  OneAtt (a ∷ []) = Unit {0}
  OneAtt (a ∷ b ∷ atts) = ⊥

  first_att :
      {A : Type 0} (f : FileAtt → A) (atts : List FileAtt)
      → OneAtt atts
      → (i : ℕ) (a : FileAtt) → get_elem? atts i ≡ some a
      → att_or f (get_elem? atts 0) ≡ inr (f a)
  first_att f [] one i a e = cc
  first_att f (b ∷ []) one zero a e = ap (att_or f) e
  first_att f (b ∷ []) one (suc i) a e = cc
  first_att f (b ∷ c ∷ atts) one i a e = absurd one

  first_bytes :
      (kind : Kind) (atts : List FileAtt)
      → OneAtt atts
      → (i : ℕ) (a : FileAtt) → get_elem? atts i ≡ some a
      → kind_of a.data_type ≡ some kind
      → bytes_as kind (get_elem? atts 0) ≡ inr a.bytes
  first_bytes kind [] one i a e own = cc
  first_bytes kind (b ∷ []) one zero a e own = ap (bytes_as kind) e ∙ given-own kind a own
  first_bytes kind (b ∷ []) one (suc i) a e own = cc
  first_bytes kind (b ∷ c ∷ atts) one i a e own = absurd one

  lib_of-ReadsAtts : (varid : ℤ) → OneAtt (atts_by varid) → ReadsAtts lib_of varid (atts_by varid)
  lib_of-ReadsAtts varid one = record {
    attname = λ i a e. ap (att_or (λ b. b.name)) e;
    att = λ i a e. first_att (λ b. (b.data_type, b.len)) (atts_by varid) one i a e;
    value = λ i a kind e own. first_bytes kind (atts_by varid) one i a e own;
  }

abbrev units : FileAtt
units = record { name = codes "units"; data_type = nc_char; len = 1; bytes = codes "m" }

abbrev offset : FileAtt
offset = record { name = codes "offset"; data_type = nc_short; len = 1; bytes = 7 ∷ 0 ∷ [] }

abbrev height : FileVar
height = record {
  name = codes "height";
  data_type = nc_double;
  dim_ids = 0 ∷ [];
  atts = units ∷ [];
}

abbrev depth : FileVar
depth = record { name = codes "depth"; data_type = nc_double; dim_ids = 0 ∷ []; atts = offset ∷ [] }

abbrev lat : FileDim
lat = record { name = codes "lat"; len = 4 }

abbrev pub file : NcFile
file = record {
  dims = lat ∷ [];
  vars = height ∷ depth ∷ [];
  atts = units ∷ [];
  unlimdimid = negsuc 0;
  format = 1;
}

abbrev pub lib : NcLib
lib = lib_of file

one_att : (i : ℕ) → OneAtt file (atts_by file (pos i))
one_att zero = tt
one_att (suc zero) = tt
one_att (suc (suc i)) = tt

var_by_index : (i : ℕ) (v : FileVar) → get_elem? file.vars i ≡ some v → ReadsAtts lib (pos i) v.atts
var_by_index i v e =
    subst (λ (o : Option FileVar). ReadsAtts lib (pos i) (atts_of_var o)) e
      (lib_of-ReadsAtts file (pos i) (one_att i))

lib-Reads : Reads lib file
lib-Reads = record {
  inq = refl;
  inq_format = refl;
  inq_dim = λ i d e. ap dim_or e;
  inq_var = λ i v e. ap var_or e;
  global_atts = lib_of-ReadsAtts file (negsuc 0) tt;
  var_atts = var_by_index;
}

abbrev pub everything : NcInqInp
everything = record {
  param_type = 0;
  ncid = pos 65536;
  myid = pos 0;
  flags = 0;
  name = [];
  native = false;
}

nc_inq-contents_example : nc_inq lib everything ≡ ok (contents (part 0 file))
unfolding irods_netcdf.Inq.Query.all_flag irods_netcdf.Inq.Query.att_case
nc_inq-contents_example =
    nc_inq-contents lib everything file lib-Reads (omega arith, tt)
      ((omega arith, tt), ((omega arith, tt), tt)) (inl refl)

abbrev the_depth : NcInqInp
the_depth = record everything { param_type = 1; name = codes "depth" }

-- The attributes of height stand with depth.
nc_inq-atts_of_0_example :
    nc_inq lib the_depth
    ≡ ok (record {
      unlimdimid = negsuc 0;
      format = 1;
      dim = [];
      var = var_out (pos 1) (atts_from 0 (units ∷ [])) depth ∷ [];
      gatt = [];
    })
unfolding irods_netcdf.Inq.Query.id_by irods_netcdf.Inq.Query.att_case
nc_inq-atts_of_0_example =
    nc_inq-atts_of_0 lib the_depth file lib-Reads refl 1 depth height refl refl refl refl
      (omega arith) (omega arith, tt)

nc_inq-one_dim_example :
    nc_inq lib (record everything { param_type = 2 })
    ≡ ok (record {
      unlimdimid = negsuc 0;
      format = 1;
      dim = dim_out (pos 0) lat ∷ [];
      var = [];
      gatt = [];
    })
unfolding irods_netcdf.Inq.Query.id_by
nc_inq-one_dim_example =
    nc_inq-one_dim lib (record everything { param_type = 2 }) file lib-Reads refl 0 lat refl refl
      refl

get_att_value-tail_example :
    get_att_value lib (pos 0) (codes "units") nc_char 1 ≡ ok (codes "m" ++ 0 ∷ [])
unfolding irods_netcdf.NcType.get_data_type_size
get_att_value-tail_example =
    get_att_value-tail lib (pos 0) (codes "units") (codes "m") nc_char 1 1 refl (omega arith) refl
      (λ kind own. given-own kind units own)

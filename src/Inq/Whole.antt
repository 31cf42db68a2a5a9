-- ===== src/Inq/Whole.antt =====
-- An inquiry for all items with ncInq (api/lib/rcNcInq.cpp).
use irods_netcdf.Base.{
  ℕ, suc, ◌+◌, ◌-◌, ◌++◌, replicate, ◌≤◌, ◌≡◌, refl, subst, Bool, true, false, Option, none, some,
  List, [], ◌∷◌, ℤ, pos, inl, inr, length, get_elem?, arith, leb, if◌then◌else◌,
}
use irods_netcdf.Status.{ok}
use irods_netcdf.NcType.{
  NcType, nc_byte, nc_char, nc_short, nc_int, nc_float, nc_double, nc_ubyte, nc_ushort, nc_uint,
  nc_int64, nc_uint64, nc_string, other,
}
use irods_netcdf.Vars.{Kind}
use irods_netcdf.Inq.{NcGenAttOut}
use irods_netcdf.Inq.Query.{
  has_bit, nc_dim_bit, nc_var_bit, nc_att_bit, if_wanted, param_type_of, NcLib, NcInqInp, nc_global,
  att_case, write_buf, get_att_by, get_att_value, att_name, att_at, att_loop, inq_att, id_at,
  dim_at, dim_loop, var_at, var_loop, all_flag, wanted, counts, inq_items, nc_inq,
}
use irods_netcdf.Inq.File.{
  kind_of, buffer_size, Known, asks_dims, asks_vars, asks_atts, AsksAll, part, FileDim, FileAtt,
  FileVar, NcFile, ReadsAtts, Reads, Fits, AllFit, AllVarsFit, att_out, atts_from, dims_from,
  var_out, vars_from, contents,
}

suc_right : (i j : ℕ) → i + suc j ≡ suc i + j
suc_right i j = omega arith

le→leb : (a b : ℕ) → a ≤ b → leb a b ≡ true
le→leb a b h = ground arith

-- The case of a type is the one that the table of kinds and the one of sizes have.
abbrev pub IsCase : NcType → ℕ → Option (Kind × ℕ × List ℕ × ℕ) → Type 0
IsCase t n none = kind_of t ≡ none
IsCase t n (some c) = (kind_of t ≡ some c.0) × (c.1 ≡ buffer_size t n)

pub att_case-IsCase : (t : NcType) (n : ℕ) → IsCase t n (att_case t n)
unfolding att_case
att_case-IsCase nc_char n = (refl, refl)
att_case-IsCase nc_byte n = (refl, refl)
att_case-IsCase nc_ubyte n = (refl, refl)
att_case-IsCase nc_short n = (refl, refl)
att_case-IsCase nc_ushort n = (refl, refl)
att_case-IsCase nc_string n = (refl, omega arith)
att_case-IsCase nc_int n = (refl, refl)
att_case-IsCase nc_uint n = (refl, refl)
att_case-IsCase nc_int64 n = (refl, refl)
att_case-IsCase nc_uint64 n = (refl, refl)
att_case-IsCase nc_float n = (refl, refl)
att_case-IsCase nc_double n = (refl, refl)
att_case-IsCase (other c) n = refl

has_dims : (inp : NcInqInp) → has_bit (param_type_of inp) nc_dim_bit ≡ asks_dims inp.param_type
has_dims inp = ground arith

has_vars : (inp : NcInqInp) → has_bit (param_type_of inp) nc_var_bit ≡ asks_vars inp.param_type
has_vars inp = ground arith

has_atts : (inp : NcInqInp) → has_bit (param_type_of inp) nc_att_bit ≡ asks_atts inp.param_type
has_atts inp = ground arith

all_flag-AsksAll : (inp : NcInqInp) → AsksAll inp.param_type inp.flags → all_flag inp ≡ true
unfolding all_flag
all_flag-AsksAll inp (inl all) = ground arith
all_flag-AsksAll inp (inr (inl some_types)) = ground arith
all_flag-AsksAll inp (inr (inr flag)) = ground arith

module _ (lib : NcLib) where
  get_att_by-IsCase :
      (o : Option (Kind × ℕ × List ℕ × ℕ)) (varid : ℤ) (name bytes : List ℕ) (t : NcType) (n : ℕ)
      → IsCase t n o
      → ((kind : Kind) → kind_of t ≡ some kind → lib.nc_get_att kind varid name ≡ inr bytes)
      → Known (kind_of t)
      → length bytes ≤ buffer_size t n
      → get_att_by lib o varid name ≡ ok (bytes ++ replicate (buffer_size t n - length bytes) 0)
  unfolding get_att_by write_buf
  get_att_by-IsCase none varid name bytes t n unknown reads known fits =
      absurd (subst Known unknown known)
  get_att_by-IsCase (some c) varid name bytes t n (own, size) reads known fits =
      rw (reads c.0 own, size, le→leb (length bytes) (buffer_size t n) fits) refl

  att_at-att_out :
      (varid : ℤ) (i : ℕ) (a : FileAtt)
      → lib.nc_inq_att varid a.name ≡ inr (a.data_type, a.len)
      → ((kind : Kind)
          → kind_of a.data_type ≡ some kind
          → lib.nc_get_att kind varid a.name ≡ inr a.bytes)
      → Fits a
      → att_at lib varid i a.name ≡ ok (att_out i a)
  unfolding att_at get_att_value
  att_at-att_out varid i a info reads (known, fits) = rw info (
      rw
        (get_att_by-IsCase (att_case a.data_type a.len) varid a.name a.bytes a.data_type a.len
          (att_case-IsCase a.data_type a.len) reads known fits)
        refl)

  -- The library reads these attributes, from index i on.
  record ReadsFrom (varid : ℤ) (i : ℕ) (atts : List FileAtt) : Type 0 where
    attname :
        (j : ℕ) (a : FileAtt)
        → get_elem? atts j ≡ some a
        → lib.nc_inq_attname varid (pos (i + j)) ≡ inr a.name
    att :
        (j : ℕ) (a : FileAtt)
        → get_elem? atts j ≡ some a
        → lib.nc_inq_att varid a.name ≡ inr (a.data_type, a.len)
    value :
        (j : ℕ) (a : FileAtt) (kind : Kind)
        → get_elem? atts j ≡ some a
        → kind_of a.data_type ≡ some kind
        → lib.nc_get_att kind varid a.name ≡ inr a.bytes

  ReadsFrom-tail :
      {varid : ℤ} {i : ℕ} {a : FileAtt} {atts : List FileAtt}
      → ReadsFrom varid i (a ∷ atts)
      → ReadsFrom varid (suc i) atts
  ReadsFrom-tail {varid} {i} r = record {
    attname = λ j b e.
        subst (λ (k : ℕ). lib.nc_inq_attname varid (pos k) ≡ inr b.name) (omega arith)
          (r.attname (suc j) b e);
    att = λ j b e. r.att (suc j) b e;
    value = λ j b kind e own. r.value (suc j) b kind e own;
  }

  att_loop-atts_from :
      (varid : ℤ) (name : List ℕ) (id : ℤ) (i : ℕ) (atts : List FileAtt)
      → ReadsFrom varid i atts
      → AllFit atts
      → att_loop lib true varid name id i (length atts) ≡ ok (atts_from i atts)
  unfolding att_loop att_name
  att_loop-atts_from varid name id i [] reads fit = refl
  att_loop-atts_from varid name id i (a ∷ atts) reads fit =
      let its_name : lib.nc_inq_attname varid (pos i) ≡ inr a.name =
        subst (λ (k : ℕ). lib.nc_inq_attname varid (pos k) ≡ inr a.name) (omega arith)
          (reads.attname 0 a refl) in
      rw its_name (
        rw
          (att_at-att_out varid i a (reads.att 0 a refl) (λ kind own. reads.value 0 a kind refl own)
            fit.0)
          (rw (att_loop-atts_from varid name id (suc i) atts (ReadsFrom-tail reads) fit.1) refl))

  from_start : (varid : ℤ) (atts : List FileAtt) → ReadsAtts lib varid atts → ReadsFrom varid 0 atts
  from_start varid atts r = record {
    attname = λ j a e.
        subst (λ (k : ℕ). lib.nc_inq_attname varid (pos k) ≡ inr a.name) (omega arith)
          (r.attname j a e);
    att = r.att;
    value = r.value;
  }

  pub inq_att-atts_from :
      (varid : ℤ) (name : List ℕ) (id : ℤ) (atts : List FileAtt)
      → ReadsAtts lib varid atts
      → AllFit atts
      → inq_att lib varid (length atts) name id true ≡ ok (atts_from 0 atts)
  unfolding inq_att
  inq_att-atts_from varid name id atts reads fit =
      att_loop-atts_from varid name id 0 atts (from_start varid atts reads) fit

  dim_loop-dims_from :
      (inp : NcInqInp) (i : ℕ) (dims : List FileDim)
      → ((j : ℕ) (d : FileDim)
          → get_elem? dims j ≡ some d
          → lib.nc_inq_dim (pos (i + j)) ≡ inr (d.name, d.len))
      → dim_loop lib true inp i (length dims) ≡ ok (dims_from i dims)
  unfolding dim_loop id_at dim_at
  dim_loop-dims_from inp i [] reads = refl
  dim_loop-dims_from inp i (d ∷ dims) reads =
      let here : lib.nc_inq_dim (pos i) ≡ inr (d.name, d.len) =
        subst (λ (k : ℕ). lib.nc_inq_dim (pos k) ≡ inr (d.name, d.len)) (omega arith)
          (reads 0 d refl) in
      let rest = dim_loop-dims_from inp (suc i) dims (λ j e at.
        subst (λ (k : ℕ). lib.nc_inq_dim (pos k) ≡ inr (e.name, e.len)) (omega arith)
          (reads (suc j) e at)) in
      rw here (rw rest refl)

  pub var_at-var_out :
      (i : ℕ) (id : ℤ) (v : FileVar) (atts : List NcGenAttOut)
      → lib.nc_inq_var id
        ≡ inr (record {
          name = v.name;
          data_type = v.data_type;
          dim_ids = v.dim_ids;
          natts = length v.atts;
        })
      → inq_att lib (pos i) (length v.atts) [] (pos 0) true ≡ ok atts
      → var_at lib i id ≡ ok (var_out id atts v)
  unfolding var_at
  var_at-var_out i id v atts info its_atts = rw info (rw its_atts refl)

  -- The library reads the variable as the one of index k.
  abbrev ReadsVar : ℕ → FileVar → Type 0
  ReadsVar k v =
      (lib.nc_inq_var (pos k)
        ≡ inr (record {
          name = v.name;
          data_type = v.data_type;
          dim_ids = v.dim_ids;
          natts = length v.atts;
        }))
      × ReadsAtts lib (pos k) v.atts

  var_loop-vars_from :
      (inp : NcInqInp) (i : ℕ) (vars : List FileVar)
      → ((j : ℕ) (v : FileVar) → get_elem? vars j ≡ some v → ReadsVar (i + j) v)
      → AllVarsFit vars
      → var_loop lib true inp i (length vars) ≡ ok (vars_from i vars)
  unfolding var_loop id_at
  var_loop-vars_from inp i [] reads fit = refl
  var_loop-vars_from inp i (v ∷ vars) reads fit =
      let (info, its_atts) = subst (λ (k : ℕ). ReadsVar k v) (omega arith) (reads 0 v refl) in
      let here =
        var_at-var_out i (pos i) v (atts_from 0 v.atts) info
          (inq_att-atts_from (pos i) [] (pos 0) v.atts its_atts fit.0) in
      let rest =
        var_loop-vars_from inp (suc i) vars
          (λ j w at. subst (λ (k : ℕ). ReadsVar k w) (suc_right i j) (reads (suc j) w at)) fit.1 in
      rw here (rw rest refl)

  module _ (inp : NcInqInp) (file : NcFile) (reads : Reads lib file) (fit : AllFit file.atts)
      (vars_fit : AllVarsFit file.vars) where
    dims_part :
        (b : Bool)
        → dim_loop lib true inp 0 (if_wanted b (length file.dims))
          ≡ ok (dims_from 0 (if b then file.dims else []))
    unfolding dim_loop
    dims_part false = refl
    dims_part true = dim_loop-dims_from inp 0 file.dims (λ j d e.
        subst (λ (k : ℕ). lib.nc_inq_dim (pos k) ≡ inr (d.name, d.len)) (omega arith)
          (reads.inq_dim j d e))

    vars_part :
        (b : Bool)
        → var_loop lib true inp 0 (if_wanted b (length file.vars))
          ≡ ok (vars_from 0 (if b then file.vars else []))
    unfolding var_loop
    vars_part false = refl
    vars_part true =
        var_loop-vars_from inp 0 file.vars
          (λ j v e.
            subst (λ (k : ℕ). ReadsVar k v) (omega arith)
              (reads.inq_var j v e, reads.var_atts j v e))
          vars_fit

    atts_part :
        (b : Bool)
        → inq_att lib nc_global (if_wanted b (length file.atts)) inp.name inp.myid true
          ≡ ok (atts_from 0 (if b then file.atts else []))
    unfolding inq_att att_loop
    atts_part false = refl
    atts_part true = inq_att-atts_from nc_global inp.name inp.myid file.atts reads.global_atts fit

    -- An inquiry for all items (paramType is 0 or has more than one type, or the first bit of flags is set)
    -- on a file that the library reads, each attribute with the call that belongs to its type, of which the
    -- types of the attributes are known and the values fit into the buffers for them: ncInq gives what the file
    -- holds of the types that are asked for, each item with its index as its id.
    pub nc_inq-contents :
        AsksAll inp.param_type inp.flags → nc_inq lib inp ≡ ok (contents (part inp.param_type file))
    unfolding nc_inq counts wanted inq_items
    nc_inq-contents all = rw reads.inq (
        rw reads.inq_format (
          rw (all_flag-AsksAll inp all) (
            rw (has_dims inp) (
              rw (has_vars inp) (
                rw (has_atts inp) (
                  rw (dims_part (asks_dims inp.param_type)) (
                    rw (vars_part (asks_vars inp.param_type))
                      (rw (atts_part (asks_atts inp.param_type)) refl))))))))

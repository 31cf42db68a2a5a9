-- ===== src/Inq/Single.antt =====
-- Individual queries with ncInq, and the values of attributes with getAttValue (api/lib/rcNcInq.cpp).
use irods_netcdf.Base.{
  ℕ, zero, suc, ◌+◌, ◌-◌, ◌*◌, ◌≤◌, ◌<◌, ◌≡◌, refl, ap, sym, subst, true, false, Option, none, some,
  List, [], ◌∷◌, ◌++◌, ℤ, pos, inr, length, get_elem?, replicate, take, arith, ltb, leb,
}
use irods_netcdf.Status.{ok, ok-injective}
use irods_netcdf.NcType.{
  NcType, nc_byte, nc_char, nc_short, nc_int, nc_float, nc_double, nc_ubyte, nc_ushort, nc_uint,
  nc_int64, nc_uint64, nc_string, other, get_data_type_size,
}
use irods_netcdf.Vars.{Kind}
use irods_netcdf.Inq.Query.{
  NcLib, NcInqInp, att_case, write_buf, get_att_by, get_att_value, inq_att, att_loop, id_by, id_at,
  dim_at, single, nc_var_bit, nc_dim_bit, dim_loop, var_loop, all_flag, wanted, counts, inq_items,
  nc_inq, has_bit, nc_all_flag,
}
use irods_netcdf.Inq.File.{
  FileDim, FileAtt, FileVar, kind_of, NcFile, ReadsAtts, Reads, AllFit, atts_from, dim_out, var_out,
}
use irods_netcdf.Inq.Whole.{IsCase, att_case-IsCase, inq_att-atts_from, var_at-var_out}

-- The zeros behind the bytes of a value: the end of a text, and a null pointer behind the strings.
abbrev pub tail_len : NcType → ℕ
tail_len nc_char = 1
tail_len nc_string = 8
tail_len nc_byte = 0
tail_len nc_ubyte = 0
tail_len nc_short = 0
tail_len nc_ushort = 0
tail_len nc_int = 0
tail_len nc_uint = 0
tail_len nc_int64 = 0
tail_len nc_uint64 = 0
tail_len nc_float = 0
tail_len nc_double = 0
tail_len (other c) = 0

write_buf-tail :
    (size k : ℕ) (bytes : List ℕ)
    → size ≡ length bytes + k
    → write_buf size bytes ≡ ok (bytes ++ replicate k 0)
unfolding write_buf
write_buf-tail size k bytes e =
    let fits : leb (length bytes) size ≡ true = ground arith in
    let rest : size - length bytes ≡ k = omega arith in rw fits (rw rest refl)

abbrev SizeIs : Option (Kind × ℕ × List ℕ × ℕ) → ℕ → Type 0
SizeIs none size = ⊥
SizeIs (some c) size = c.1 ≡ size

scaled : (size n k s tail : ℕ) → ok k ≡ ok s → size ≡ n * k + tail → size ≡ n * s + tail
scaled size n k s tail e h = subst (λ (m : ℕ). size ≡ n * m + tail) (ok-injective e) h

att_case_size :
    (t : NcType) (n s : ℕ)
    → get_data_type_size t ≡ ok s
    → 0 < s
    → SizeIs (att_case t n) (n * s + tail_len t)
unfolding get_data_type_size att_case
att_case_size nc_char n s e known = scaled _ n 1 s (tail_len nc_char) e (omega arith)
att_case_size nc_byte n s e known = scaled _ n 1 s (tail_len nc_byte) e (omega arith)
att_case_size nc_ubyte n s e known = scaled _ n 1 s (tail_len nc_ubyte) e (omega arith)
att_case_size nc_short n s e known = scaled _ n 2 s (tail_len nc_short) e (omega arith)
att_case_size nc_ushort n s e known = scaled _ n 2 s (tail_len nc_ushort) e (omega arith)
att_case_size nc_string n s e known = scaled _ n 8 s (tail_len nc_string) e (omega arith)
att_case_size nc_int n s e known = scaled _ n 4 s (tail_len nc_int) e (omega arith)
att_case_size nc_uint n s e known = scaled _ n 4 s (tail_len nc_uint) e (omega arith)
att_case_size nc_int64 n s e known = scaled _ n 8 s (tail_len nc_int64) e (omega arith)
att_case_size nc_uint64 n s e known = scaled _ n 8 s (tail_len nc_uint64) e (omega arith)
att_case_size nc_float n s e known = scaled _ n 4 s (tail_len nc_float) e (omega arith)
att_case_size nc_double n s e known = scaled _ n 8 s (tail_len nc_double) e (omega arith)
att_case_size (other c) n s e known = let zero_size : 0 ≡ s = ok-injective e in absurd (omega arith)

get_elem?-take :
    {A : Type 0} (n j : ℕ) (xs : List A) (a : A)
    → get_elem? (take n xs) j ≡ some a
    → get_elem? xs j ≡ some a
get_elem?-take zero j xs a h = cc
get_elem?-take (suc n) j [] a h = h
get_elem?-take (suc n) zero (x ∷ xs) a h = h
get_elem?-take (suc n) (suc j) (x ∷ xs) a h = get_elem?-take n j xs a h

take-AllFit : (n : ℕ) (atts : List FileAtt) → AllFit atts → AllFit (take n atts)
take-AllFit zero atts h = tt
take-AllFit (suc n) [] h = tt
take-AllFit (suc n) (a ∷ atts) h = (h.0, take-AllFit n atts h.1)

length-take_le : {A : Type 0} (n : ℕ) (xs : List A) → n ≤ length xs → length (take n xs) ≡ n
length-take_le zero xs h = refl
length-take_le (suc n) [] h = absurd (omega arith)
length-take_le (suc n) (x ∷ xs) h = ap suc (length-take_le n xs (omega arith))

get_elem?-nonempty :
    {A : Type 0} (xs : List A) (k : ℕ) (x : A) → get_elem? xs k ≡ some x → ltb 0 (length xs) ≡ true
get_elem?-nonempty [] k x h = cc
get_elem?-nonempty (y ∷ xs) k x h = ground arith

module _ (lib : NcLib) where
  take-ReadsAtts :
      (varid : ℤ) (n : ℕ) (atts : List FileAtt)
      → ReadsAtts lib varid atts
      → ReadsAtts lib varid (take n atts)
  take-ReadsAtts varid n atts r = record {
    attname = λ i a e. r.attname i a (get_elem?-take n i atts a e);
    att = λ i a e. r.att i a (get_elem?-take n i atts a e);
    value = λ i a kind e own. r.value i a kind (get_elem?-take n i atts a e) own;
  }

  get_att_by-tail :
      (o : Option (Kind × ℕ × List ℕ × ℕ)) (varid : ℤ) (name bytes : List ℕ) (t : NcType)
      (n tail : ℕ)
      → ((kind : Kind) → kind_of t ≡ some kind → lib.nc_get_att kind varid name ≡ inr bytes)
      → IsCase t n o
      → SizeIs o (length bytes + tail)
      → get_att_by lib o varid name ≡ ok (bytes ++ replicate tail 0)
  unfolding get_att_by
  get_att_by-tail none varid name bytes t n tail reads is_case size = absurd size
  get_att_by-tail (some c) varid name bytes t n tail reads is_case size =
      rw (reads c.0 is_case.0) (write_buf-tail c.1 tail bytes size)

  -- For an attribute of a known type, of which the call that belongs to its type writes as many bytes as
  -- its length says:
  -- getAttValue gives these bytes, followed by one 0 for a text and by a null pointer for strings, and
  -- nothing is written outside the buffer.
  pub get_att_value-tail :
      (varid : ℤ) (name bytes : List ℕ) (t : NcType) (n s : ℕ)
      → get_data_type_size t ≡ ok s
      → 0 < s
      → length bytes ≡ n * s
      → ((kind : Kind) → kind_of t ≡ some kind → lib.nc_get_att kind varid name ≡ inr bytes)
      → get_att_value lib varid name t n ≡ ok (bytes ++ replicate (tail_len t) 0)
  unfolding get_att_value
  get_att_value-tail varid name bytes t n s size known len reads =
      get_att_by-tail (att_case t n) varid name bytes t n (tail_len t) reads (att_case-IsCase t n) (
        subst (λ (m : ℕ). SizeIs (att_case t n) (m + tail_len t)) (sym len)
          (att_case_size t n s size known))

  module _ (inp : NcInqInp) (file : NcFile) (reads : Reads lib file)
      (one : has_bit inp.flags nc_all_flag ≡ false) where
    not_all : inp.param_type ≡ nc_var_bit → all_flag inp ≡ false
    unfolding all_flag
    not_all e = rw e (rw one refl)

    not_all_dims : inp.param_type ≡ nc_dim_bit → all_flag inp ≡ false
    unfolding all_flag
    not_all_dims e = rw e (rw one refl)

    one_var :
        inp.param_type ≡ nc_var_bit
        → (n : ℕ × ℕ × ℕ × ℤ) → ltb 0 n.1 ≡ true
        → counts inp n ≡ (0, 1, 0)
    unfolding counts wanted single
    one_var e n some_vars = rw (not_all e) (rw e (rw some_vars refl))

    one_dim :
        inp.param_type ≡ nc_dim_bit
        → (n : ℕ × ℕ × ℕ × ℤ) → ltb 0 n.0 ≡ true
        → counts inp n ≡ (1, 0, 0)
    unfolding counts wanted single
    one_dim e n some_dims = rw (not_all_dims e) (rw e (rw some_dims refl))

    -- On a file that the library reads, each attribute with the call that belongs to its type, of which the
    -- values of the variable 0 fit into their buffers: an individual query of a variable, by its id k or by a name that the library gives the id k: the
    -- answer has the variable, but its attributes are the first ones of the variable 0, if that has
    -- as many.
    pub nc_inq-atts_of_0 :
        (k : ℕ) (v v0 : FileVar)
        → inp.param_type ≡ nc_var_bit
        → id_by lib.nc_inq_varid inp.name inp.myid ≡ ok (pos k)
        → get_elem? file.vars k ≡ some v
        → get_elem? file.vars 0 ≡ some v0
        → length v.atts ≤ length v0.atts
        → AllFit v0.atts
        → nc_inq lib inp
          ≡ ok (record {
            unlimdimid = file.unlimdimid;
            format = file.format;
            dim = [];
            var = var_out (pos k) (atts_from 0 (take (length v.atts) v0.atts)) v ∷ [];
            gatt = [];
          })
    unfolding nc_inq inq_items dim_loop var_loop id_at inq_att att_loop
    nc_inq-atts_of_0 k v v0 vars id its_k its_0 enough fit =
        let atts = take (length v.atts) v0.atts in
        let its_atts : inq_att lib (pos 0) (length v.atts) [] (pos 0) true ≡ ok (atts_from 0 atts) =
          subst (λ (n : ℕ). inq_att lib (pos 0) n [] (pos 0) true ≡ ok (atts_from 0 atts))
            (length-take_le (length v.atts) v0.atts enough)
            (inq_att-atts_from lib (pos 0) [] (pos 0) atts
              (take-ReadsAtts (pos 0) (length v.atts) v0.atts (reads.var_atts 0 v0 its_0))
              (take-AllFit (length v.atts) v0.atts fit)) in
        rw reads.inq (
          rw reads.inq_format (
            rw (one_var vars _ (get_elem?-nonempty file.vars k v its_k)) (
              rw (not_all vars) (
                rw id (
                  rw
                    (var_at-var_out lib 0 (pos k) v (atts_from 0 atts) (reads.inq_var k v its_k)
                      its_atts)
                    refl)))))

    -- An individual query of a dimension, by its id k or by a name that the library gives the id k: the
    -- answer has the dimension k and nothing else.
    pub nc_inq-one_dim :
        (k : ℕ) (d : FileDim)
        → inp.param_type ≡ nc_dim_bit
        → id_by lib.nc_inq_dimid inp.name inp.myid ≡ ok (pos k)
        → get_elem? file.dims k ≡ some d
        → nc_inq lib inp
          ≡ ok (record {
            unlimdimid = file.unlimdimid;
            format = file.format;
            dim = dim_out (pos k) d ∷ [];
            var = [];
            gatt = [];
          })
    unfolding nc_inq inq_items dim_loop dim_at var_loop id_at inq_att att_loop
    nc_inq-one_dim k d dims id its_k = rw reads.inq (
        rw reads.inq_format (
          rw (one_dim dims _ (get_elem?-nonempty file.dims k d its_k))
            (rw (not_all_dims dims) (rw id (rw (reads.inq_dim k d its_k) refl)))))

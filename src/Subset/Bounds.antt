-- ===== src/Subset/Bounds.antt =====
-- What the dimension loop lets through: ranges inside their dimensions, as long as no subset starts
-- below 0.
use irods_netcdf.Base.{
  ℕ, zero, suc, ◌+◌, ◌<◌, ◌≡◌, refl, inl, inr, false, Option, none, some, List, [], ◌∷◌, pos, ◌+ℤ◌,
  ◌-ℤ◌, ◌≤ℤ◌, ◌<ℤ◌, ap, int_laws, arith, get_elem?, Bool-cases, subst,
}
use irods_netcdf.Status.{Result, ok, err, fault, ◌>>=◌, deref, ok-injective, >>=_ok, deref_ok}
use irods_netcdf.Inq.{NcGenDimOut, NcGenVarOut, NcInqOut}
use irods_netcdf.Vars.{DimRange, NcGetVarInp}
use irods_netcdf.Subset.{
  NcSubset, find_subset, out_of_range, dim_range, dim_ranges, get_single_nc_var_data, minus_one,
  find_var, nc_subset_var, subset_of,
}

-- start, start + 1, …, start + count - 1 are indices of the dimension, and there is one.
pub record Within (r : DimRange) (dim : NcGenDimOut) : Type 0 where
  pub from_zero : pos 0 ≤ℤ r.start
  pub some_index : pos 0 <ℤ r.count
  pub to_end : r.start +ℤ r.count ≤ℤ pos dim.array_len

abbrev pub InBounds : List NcGenDimOut → List ℕ → List DimRange → Type 0
InBounds dims [] [] = Unit {0}
InBounds dims [] (r ∷ rs) = ⊥
InBounds dims (i ∷ is) [] = ⊥
InBounds dims (i ∷ is) (r ∷ rs) =
    ((dim : NcGenDimOut) × (get_elem? dims i ≡ some dim) × Within r dim) × InBounds dims is rs

-- Subsets as parseNcSubset makes them.
abbrev pub StartsFromZero : List NcSubset → Type 0
StartsFromZero [] = Unit {0}
StartsFromZero (s ∷ ss) = (pos 0 ≤ℤ s.start) × StartsFromZero ss

abbrev pub NonEmpty : List NcGenDimOut → Type 0
NonEmpty [] = Unit {0}
NonEmpty (d ∷ ds) = (0 < d.array_len) × NonEmpty ds

find_subset-StartsFromZero :
    (name : List ℕ) (ss : List NcSubset) (s : NcSubset)
    → StartsFromZero ss
    → find_subset name ss ≡ some s
    → pos 0 ≤ℤ s.start
unfolding find_subset
find_subset-StartsFromZero name [] s z e = cc
find_subset-StartsFromZero name (x ∷ ss) s z e =
    ground (arith, find_subset-StartsFromZero name ss s z.1)

get_elem?-NonEmpty :
    (ds : List NcGenDimOut) (i : ℕ) (d : NcGenDimOut)
    → NonEmpty ds
    → get_elem? ds i ≡ some d
    → 0 < d.array_len
get_elem?-NonEmpty [] i d n e = cc
get_elem?-NonEmpty (x ∷ ds) zero d n e = ground arith
get_elem?-NonEmpty (x ∷ ds) (suc i) d n e = get_elem?-NonEmpty ds i d n.1 e

pub in_range :
    (s : NcSubset) (n : ℕ) → out_of_range s n ≡ false → (s.end <ℤ pos n) × (s.start ≤ℤ s.end)
unfolding out_of_range
in_range s n h = ground arith

dim_range-Within :
    (o : Option NcSubset) (dim : NcGenDimOut) (r : DimRange)
    → ((s : NcSubset) → o ≡ some s → pos 0 ≤ℤ s.start)
    → 0 < dim.array_len
    → dim_range o dim ≡ ok r
    → Within r dim
unfolding dim_range
dim_range-Within none dim r z n e =
    subst (λ (t : DimRange). Within t dim) (ok-injective e)
      (record { from_zero = omega arith; some_index = omega arith; to_end = omega int_laws })
dim_range-Within (some s) dim r z n e = elim (Bool-cases (out_of_range s dim.array_len)) [
  | inl out ↦ cc (rw out at e)
  | inr inside ↦
      let (lt, le) = in_range s dim.array_len inside in
      let from = z s refl in
      subst (λ (t : DimRange). Within t dim) (ok-injective (rw inside at e))
        (record { from_zero = from; some_index = omega int_laws; to_end = omega int_laws })
]

dim_ranges-InBounds :
    (dims : List NcGenDimOut) (subsets : List NcSubset) (is : List ℕ) (rs : List DimRange)
    → NonEmpty dims
    → StartsFromZero subsets
    → dim_ranges dims subsets is ≡ ok rs
    → InBounds dims is rs
unfolding dim_ranges
dim_ranges-InBounds dims ss [] [] n z e = tt
dim_ranges-InBounds dims ss [] (r ∷ rs) n z e = cc
dim_ranges-InBounds dims ss (i ∷ is) rs n z e =
    let (dim, d, e1) = >>=_ok (deref (get_elem? dims i)) _ e in
    let (r, x, e2) = >>=_ok (dim_range (find_subset dim.name ss) dim) _ e1 in
    let (rest, y, e3) = >>=_ok (dim_ranges dims ss is) _ e2 in
    let found : get_elem? dims i ≡ some dim = deref_ok (get_elem? dims i) d in
    subst (λ (t : List DimRange). InBounds dims (i ∷ is) t) (ok-injective e3)
      (
        (
          dim,
          found,
          dim_range-Within (find_subset dim.name ss) dim r
              (λ s f. find_subset-StartsFromZero dim.name ss s z f)
              (get_elem?-NonEmpty dims i dim n found) x,
        ),
        dim_ranges-InBounds dims ss is rest n z y,
      )

module _ {O D : Type 0} where
  fst_only : (r : Result O) (d : D) → r ≡ (◌>>=◌ {B = O × D} r (λ out. ok (out, d)) >>= λ p. ok p.0)
  fst_only (ok out) d = refl
  fst_only (err e) d = refl
  fst_only fault d = refl

  >>=-fst_only :
      (m : Result D) (g : D → Result O)
      → (m >>= g)
        ≡ (◌>>=◌ {B = O × D} m (λ d. ◌>>=◌ {B = O × D} (g d) (λ out. ok (out, d))) >>= λ p. ok p.0)
  >>=-fst_only (ok d) g = fst_only (g d) d
  >>=-fst_only (err e) g = refl
  >>=-fst_only fault g = refl

module _ {O : Type 0} (get_vars : NcGetVarInp → Result O) where
  -- Where no dimension is empty and no subset starts below 0, a read that succeeds was made with
  -- ranges that lie in the dimensions of the variable.
  pub get_single_nc_var_data-InBounds :
      (ncid var_inx : ℕ) (inq : NcInqOut) (subsets : List NcSubset) (out : O) (dims : List DimRange)
      → NonEmpty inq.dim
      → StartsFromZero subsets
      → get_single_nc_var_data get_vars ncid var_inx inq subsets ≡ ok (out, dims)
      → (v : NcGenVarOut) × (get_elem? inq.var var_inx ≡ some v)
        × InBounds inq.dim v.dim_id dims
        × (get_vars (record { data_type = v.data_type; ncid = ncid; varid = v.id; dims = dims })
            ≡ ok out)
  unfolding get_single_nc_var_data
  get_single_nc_var_data-InBounds ncid var_inx inq ss out dims n z e =
      let (v, a, e1) = >>=_ok (deref (get_elem? inq.var var_inx)) _ e in
      let (ds, b, e2) = >>=_ok (dim_ranges inq.dim ss v.dim_id) _ e1 in
      let (o, c, e3) =
        >>=_ok (get_vars (record { data_type = v.data_type; ncid = ncid; varid = v.id; dims = ds }))
          _ e2 in
      let same : ◌≡◌ {A = O × List DimRange} (o, ds) (out, dims) = ok-injective e3 in
      (
        v,
        deref_ok (get_elem? inq.var var_inx) a,
        subst (λ (t : List DimRange). InBounds inq.dim v.dim_id t) (ap (λ t. t.1) same)
            (dim_ranges-InBounds inq.dim ss v.dim_id ds n z b),
        cc (c, ap (λ t. t.0) same, ap (λ t. t.1) same),
      )

  -- The microservice reads what the client reads for the variable of that name.
  pub nc_subset_var_eq :
      (ncid var_inx : ℕ) (inq : NcInqOut) (name : List ℕ) (subsets : List NcSubset)
      (v : NcGenVarOut)
      → find_var name inq.var ≡ some v
      → get_elem? inq.var var_inx ≡ some v
      → nc_subset_var get_vars ncid inq name subsets
        ≡ (get_single_nc_var_data get_vars ncid var_inx inq subsets >>= λ r. ok r.0)
  unfolding nc_subset_var subset_of get_single_nc_var_data
  nc_subset_var_eq ncid var_inx inq name subsets v f g =
      rw (f, g)
        (>>=-fst_only (dim_ranges inq.dim subsets v.dim_id) (λ dims.
          get_vars (record { data_type = v.data_type; ncid = ncid; varid = v.id; dims = dims })))

-- A start of -1, which resolveSubsetVar leaves where no value reaches the start of the subset, passes
-- the test: the range begins before the dimension and is longer than it.
pub dim_range_unresolved :
    (s : NcSubset) (dim : NcGenDimOut) (n : ℕ)
    → dim.array_len ≡ suc n
    → s.start ≡ minus_one
    → s.end ≡ pos n
    → dim_range (some s) dim
      ≡ ok (record { start = minus_one; count = pos (dim.array_len + 1); stride = s.stride })
unfolding dim_range out_of_range ◌+ℤ◌ ◌-ℤ◌
dim_range_unresolved s dim n l a b = ground arith

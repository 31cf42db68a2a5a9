-- ===== src/Rule/Dims/Found.antt =====
-- What msiNcGetDimNameInInqOut gives for a variable.
use irods_netcdf.Base.{
  ℕ, ◌<◌, ◌≡◌, refl, inl, inr, true, false, Option, none, some, List, [], ◌∷◌, ◌++◌, ℤ, pos, leb,
  if◌then◌else◌, length, get_elem?, strcmp_eq, arith, Bool-cases,
}
use irods_netcdf.Status.{ok, ◌>>=◌, deref, >>=_cong, netcdf_unmatched_name_err}
use irods_netcdf.Inq.{NcGenDimOut, NcGenVarOut, NcInqOut}
use irods_netcdf.Subset.{find_var}
use irods_netcdf.Rule.{MsParam, nc_inq_out_ms_t, str_ms_t, null_name, matched}
use irods_netcdf.Rule.Dims.{
  same_id, dim_with_id, dims_of_vars, fill_name, kept_name, of_name, dim_at,
  msi_nc_get_dim_name_in_inq_out,
}

-- The first dimension with an id.
unfoldable pub first_dim : ℤ → List NcGenDimOut → Option NcGenDimOut
first_dim id [] = none
first_dim id (d ∷ ds) = let rest = first_dim id ds in if same_id d.id id then some d else rest

fill_name-dim_with_id :
    (id : ℤ) (ds : List NcGenDimOut)
    → fill_name netcdf_unmatched_name_err (dim_with_id (λ d. some d.name) id ds none)
      ≡ (matched (first_dim id ds) >>= λ d. ok (str_ms_t d.name))
unfolding fill_name dim_with_id first_dim matched
fill_name-dim_with_id id [] = refl
fill_name-dim_with_id id (d ∷ ds) = elim (Bool-cases (same_id d.id id)) [
  | inl same ↦ rw same refl
  | inr other ↦ rw other (fill_name-dim_with_id id ds)
]

module _ {A : Type 0} (of_dim : NcGenDimOut → A) (inx : ℕ) (name : List ℕ)
    (dims : List NcGenDimOut) where
  dims_of_vars-none :
      (vs : List NcGenVarOut) (found : A)
      → find_var name vs ≡ none
      → dims_of_vars of_dim inx name dims vs found ≡ ok found
  unfolding dims_of_vars find_var
  dims_of_vars-none [] found h = refl
  dims_of_vars-none (v ∷ vs) found h = elim (Bool-cases (strcmp_eq name v.name)) [
    | inl same ↦ absurd (ground arith)
    | inr other ↦ rw other (dims_of_vars-none vs found (ground arith))
  ]

  dims_of_vars_there :
      (before after : List NcGenVarOut) (v : NcGenVarOut) (found : A)
      → find_var name before ≡ none
      → strcmp_eq name v.name ≡ true
      → find_var name after ≡ none
      → dims_of_vars of_dim inx name dims (before ++ v ∷ after) found
        ≡ (deref (get_elem? v.dim_id inx) >>= λ id. ok (dim_with_id of_dim (pos id) dims found))
  unfolding dims_of_vars find_var
  dims_of_vars_there [] after v found b same a = rw same (
      >>=_cong (deref (get_elem? v.dim_id inx))
        (λ id. dims_of_vars-none after (dim_with_id of_dim (pos id) dims found) a))
  dims_of_vars_there (w ∷ before) after v found b same a =
      elim (Bool-cases (strcmp_eq name w.name)) [
        | inl its ↦ absurd (ground arith)
        | inr other ↦ rw other (dims_of_vars_there before after v found (ground arith) same a)
      ]

fill_found :
    (o : Option ℕ) (ds : List NcGenDimOut)
    → ((deref o >>= λ id. ok (dim_with_id (λ d. some d.name) (pos id) ds none)) >>= λ found.
        fill_name netcdf_unmatched_name_err found)
      ≡ (deref o >>= λ id. matched (first_dim (pos id) ds) >>= λ d. ok (str_ms_t d.name))
fill_found none ds = refl
fill_found (some id) ds = fill_name-dim_with_id (pos id) ds

-- For the only variable of a name and a position below the number of dimensions of the file, the name of the
-- first dimension with the id at that position of the variable is given, an error where no dimension has the
-- id; and where the variable has fewer dimensions, its ids are read outside their array.
pub msi_nc_get_dim_name_in_inq_out-var :
    (parse : MsParam → ℤ) (inq : NcInqOut) (inx : MsParam) (i : ℕ) (name : List ℕ)
    (before after : List NcGenVarOut) (v : NcGenVarOut)
    → parse inx ≡ pos i
    → i < length inq.dim
    → strcmp_eq name null_name ≡ false
    → inq.var ≡ before ++ v ∷ after
    → find_var name before ≡ none
    → strcmp_eq name v.name ≡ true
    → find_var name after ≡ none
    → msi_nc_get_dim_name_in_inq_out parse
        (some (nc_inq_out_ms_t inq))
        (some inx)
        (some (str_ms_t name))
        (some tt)
      ≡ (deref (get_elem? v.dim_id i) >>= λ id.
          matched (first_dim (pos id) inq.dim) >>= λ d. ok (str_ms_t d.name))
unfolding msi_nc_get_dim_name_in_inq_out dim_at of_name kept_name
msi_nc_get_dim_name_in_inq_out-var parse inq inx i name before after v parsed below some_name at b
      same a =
    let inside : leb (length inq.dim) i ≡ false = ground arith in
    let found =
      dims_of_vars_there (λ (d : NcGenDimOut). some d.name) i name inq.dim before after v none b
        same a in
    rw (parsed, inside, some_name, at, found) (fill_found (get_elem? v.dim_id i) inq.dim)

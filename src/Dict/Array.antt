-- ===== src/Dict/Array.antt =====
-- api/lib/ooiCi.cpp: arraySet on the array of a genArray_t, and the ids of an object in a list of values.
use irods_netcdf.Base.{
  ℕ, ◌+◌, ◌-◌, ◌%◌, ◌<◌, ◌≡◌, refl, sym, subst, ◌==◌, inl, inr, Option, none, some, List, [], ◌∷◌,
  ◌++◌, take, replicate, if◌then◌else◌, strcmp_eq, length, length-append, Bool-cases, arith,
}
use irods_netcdf.Status.{
  Result, ok, err, fault, code, ◌>>=◌, sys_internal_null_input_err, ooi_json_type_err,
  ooi_revid_not_found,
}
use irods_netcdf.Dict.Attr.{write_cell, copy_cells}
use irods_netcdf.Dict.Holds.{Stored, HasRoom, Stored-grown, Stored-kept, write_cell-push}
use irods_netcdf.Dict.Json.{Value, str_ms_t}

-- genArray_t, with its array as in Dict.Attr.
pub record GenArray (V : Type 0) : Type 0 where
  pub len : ℕ
  pub value : Option (List (Option V))

module _ {V : Type 0} (ptr_array_malloc_len : ℕ) where
  unfoldable pub grown : GenArray V → Result (Option (List (Option V)))
  unfolding copy_cells
  grown a =
      if a.len % ptr_array_malloc_len == 0
      then copy_cells a.len 0 a.value (some (replicate (a.len + ptr_array_malloc_len) none))
      else ok a.value

  -- arraySet; `none` is a null array.
  unfoldable pub array_set : Option (GenArray V) → V → Result (GenArray V)
  unfolding grown
  array_set none v = err (code sys_internal_null_input_err)
  array_set (some a) v = grown a >>= λ cells.
      write_cell cells a.len (some v) >>= λ value'. ok (record { len = a.len + 1; value = value' })

  grown-HasRoom :
      (a : GenArray V) (vs : List V)
      → a.len ≡ length vs
      → 0 < ptr_array_malloc_len
      → Stored ptr_array_malloc_len a.value vs
      → (cells : Option (List (Option V))) × (grown a ≡ ok cells)
        × HasRoom ptr_array_malloc_len cells vs
  unfolding grown
  grown-HasRoom a vs e positive h = elim (Bool-cases (a.len % ptr_array_malloc_len == 0)) [
    | inl full ↦
        let (cells, c, r) = Stored-grown ptr_array_malloc_len vs a.len e positive h full in
        (cells, rw (full, c) refl, r)
    | inr room ↦ (a.value, rw room refl, Stored-kept ptr_array_malloc_len vs a.len e h room)
  ]

  -- A value is added at the end, never outside the array.
  pub array_set-Stored :
      (a : GenArray V) (vs : List V) (v : V)
      → a.len ≡ length vs
      → 0 < ptr_array_malloc_len
      → Stored ptr_array_malloc_len a.value vs
      → (a' : GenArray V) × (array_set (some a) v ≡ ok a')
        × (a'.len ≡ length (vs ++ v ∷ []))
        × Stored ptr_array_malloc_len a'.value (vs ++ v ∷ [])
  unfolding array_set
  array_set-Stored a vs v e positive h =
      let (cells, g, r) = grown-HasRoom a vs e positive h in
      let (value', w, held) = write_cell-push ptr_array_malloc_len vs v r in
      let l : length vs ≡ a.len = sym e in
      let w' : write_cell cells a.len (some v) ≡ ok value' =
        subst (λ (i : ℕ). write_cell cells i (some v) ≡ ok value') l w in
      (
        record { len = a.len + 1; value = value' },
        rw (g, w') refl,
        omega (arith, length-append vs (v ∷ [])),
        inr held,
      )

-- NAME_LEN is the size of the buffer of an id.
module _ {F : Type 0} (name_len : ℕ) where
  -- getRevIdFromArray: the first text that is not the id of the object.
  unfoldable pub get_rev_id_from_array : List (Value F) → List ℕ → Result (List ℕ)
  get_rev_id_from_array [] object_id = err (code ooi_revid_not_found)
  get_rev_id_from_array (str_ms_t s ∷ vs) object_id =
      let rest = get_rev_id_from_array vs object_id in
      if strcmp_eq object_id s then rest else ok (take (name_len - 1) s)
  get_rev_id_from_array (_ ∷ vs) object_id = get_rev_id_from_array vs object_id

  -- getObjIdFromArray: the first value is read without a test of the length.
  unfoldable pub get_obj_id_from_array : List (Value F) → Result (List ℕ)
  get_obj_id_from_array [] = fault
  get_obj_id_from_array (str_ms_t s ∷ vs) = ok (take (name_len - 1) s)
  get_obj_id_from_array (_ ∷ vs) = err (code ooi_json_type_err)

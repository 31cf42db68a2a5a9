-- ===== src/Dict/Parts.antt =====
-- The arrays of keys and of values of a dictionary_t, taken apart at an entry.
use irods_netcdf.Base.{
  ℕ, suc, ◌+◌, ◌≡◌, refl, sym, ap, ◌∙◌, subst, inl, inr, true, false, Option, none, some, List, [],
  ◌∷◌, ◌++◌, arith, strcmp_eq, length,
}
use irods_netcdf.Status.{ok}
use irods_netcdf.Dict.Entries.{Key, key_in, keys}
use irods_netcdf.Dict.Attr.{read_cell, write_cell, shift_down, find_key, find_not_null}
use irods_netcdf.Dict.Holds.{Holds, Stored, write_cell-replace, read_cell-there, shift_down-remove}
use irods_netcdf.Dict.Holds.{Holds, Stored, write_cell-replace, read_cell-there, shift_down-remove}
use irods_netcdf.Dict.Cells.{find_key_absent, find_key_present, find_not_null_lem}

module _ (ptr_array_malloc_len : ℕ) where
  pub find_absent :
      (ks : List Key) (k : Key) (n : ℕ) {a : Option (List (Option Key))}
      → n ≡ length ks
      → Stored ptr_array_malloc_len a ks
      → key_in ks k ≡ false
      → (find_key n 0 k a ≡ ok none) × (find_not_null n 0 k a ≡ ok none)
  unfolding find_key find_not_null
  find_absent ks k n e (inl (empty, _)) new = rw (e, empty) (refl, refl)
  find_absent ks k n e (inr h) new =
      let f = find_key_absent k [] ks h.spare 0 refl refl new in
      let same = find_not_null_lem k [] ks h.spare 0 refl refl in rw (e, h.at) (f, same ∙ f)

  pub find_present :
      (front post : List Key) (x k : Key) (n i : ℕ) {a : Option (List (Option Key))}
      → n ≡ length (front ++ x ∷ post)
      → length front ≡ i
      → Holds ptr_array_malloc_len a (front ++ x ∷ post)
      → key_in front k ≡ false
      → strcmp_eq k x ≡ true
      → (find_key n 0 k a ≡ ok (some i)) × (find_not_null n 0 k a ≡ ok (some i))
  find_present front post x k n i e l h new same =
      let f = find_key_present k [] front post x h.spare 0 refl refl new same in
      let agree = find_not_null_lem k [] (front ++ x ∷ post) h.spare 0 refl refl in
      let at : 0 + length front ≡ i = omega arith in
      let found = f ∙ ap (λ (j : ℕ). ok (some j)) at in rw (e, h.at) (found, agree ∙ found)

module _ {V : Type 0} where
  unfoldable pub values : List (Key × V) → List V
  values [] = []
  values (e ∷ es) = e.1 ∷ values es

  pub values-append : (es es' : List (Key × V)) → values (es ++ es') ≡ values es ++ values es'
  unfolding values
  values-append [] es' = refl
  values-append (e ∷ es) es' = ap (◌∷◌ e.1) (values-append es es')

  pub all_keys-append : (es es' : List (Key × V)) → keys (es ++ es') ≡ keys es ++ keys es'
  unfolding keys
  all_keys-append [] es' = refl
  all_keys-append (e ∷ es) es' = ap (◌∷◌ e.0) (all_keys-append es es')

  pub length-values : (es : List (Key × V)) → length (values es) ≡ length es
  unfolding values
  length-values [] = refl
  length-values (e ∷ es) = ap suc (length-values es)

  pub length-keys : (es : List (Key × V)) → length (keys es) ≡ length es
  unfolding keys
  length-keys [] = refl
  length-keys (e ∷ es) = ap suc (length-keys es)

  module _ (ptr_array_malloc_len : ℕ) where
    pub key_split :
        (front post : List (Key × V)) (x : Key × V) {a : Option (List (Option Key))}
        → Holds ptr_array_malloc_len a (keys (front ++ x ∷ post))
        → Holds ptr_array_malloc_len a (keys front ++ x.0 ∷ keys post)
    unfolding keys
    key_split front post x {a = a} h =
        subst (Holds ptr_array_malloc_len a) (all_keys-append front (x ∷ post)) h

    pub key_join :
        (front post : List (Key × V)) (x : Key × V) {a : Option (List (Option Key))}
        → Holds ptr_array_malloc_len a (keys front ++ x.0 ∷ keys post)
        → Holds ptr_array_malloc_len a (keys (front ++ x ∷ post))
    unfolding keys
    key_join front post x {a = a} h =
        subst (Holds ptr_array_malloc_len a) (sym (all_keys-append front (x ∷ post))) h

    value_split :
        (front post : List (Key × V)) (x : Key × V) {a : Option (List (Option V))}
        → Holds ptr_array_malloc_len a (values (front ++ x ∷ post))
        → Holds ptr_array_malloc_len a (values front ++ x.1 ∷ values post)
    unfolding values
    value_split front post x {a = a} h =
        subst (Holds ptr_array_malloc_len a) (values-append front (x ∷ post)) h

    pub value_join :
        (front post : List (Key × V)) (x : Key × V) {a : Option (List (Option V))}
        → Holds ptr_array_malloc_len a (values front ++ x.1 ∷ values post)
        → Holds ptr_array_malloc_len a (values (front ++ x ∷ post))
    unfolding values
    value_join front post x {a = a} h =
        subst (Holds ptr_array_malloc_len a) (sym (values-append front (x ∷ post))) h

    -- A write to a value, and the shift of both arrays.
    pub set_value :
        (front post : List (Key × V)) (x : Key × V) (v : V) {a : Option (List (Option V))}
        → Holds ptr_array_malloc_len a (values (front ++ x ∷ post))
        → (a' : Option (List (Option V))) × (write_cell a (length front) (some v) ≡ ok a')
          × Holds ptr_array_malloc_len a' (values (front ++ (x.0, v) ∷ post))
    set_value front post x v {a = a} h =
        let (a', w, h') =
          write_cell-replace ptr_array_malloc_len (values front) (values post) x.1 v
            (value_split front post x h) in
        (
          a',
          subst (λ (i : ℕ). write_cell a i (some v) ≡ ok a') (length-values front) w,
          value_join front post (x.0, v) h',
        )

    pub read_value :
        (front post : List (Key × V)) (x : Key × V) {a : Option (List (Option V))}
        → Holds ptr_array_malloc_len a (values (front ++ x ∷ post))
        → read_cell a (length front) ≡ ok (some x.1)
    read_value front post x {a = a} h =
        subst (λ (i : ℕ). read_cell a i ≡ ok (some x.1)) (length-values front)
          (read_cell-there ptr_array_malloc_len (values front) (values post) x.1
            (value_split front post x h))

    pub remove_value :
        (front post : List (Key × V)) (x : Key × V) {a : Option (List (Option V))}
        → Holds ptr_array_malloc_len a (values (front ++ x ∷ post))
        → (a' : Option (List (Option V))) × (shift_down (length post) (length front) a ≡ ok a')
          × Holds ptr_array_malloc_len a' (values (front ++ post))
    remove_value front post x {a = a} h =
        let (a', w, h') =
          shift_down-remove ptr_array_malloc_len (values front) (values post) x.1
            (value_split front post x h) in
        (
          a',
          subst (λ (r : ℕ). shift_down r (length front) a ≡ ok a') (length-values post)
              (subst (λ (i : ℕ). shift_down (length (values post)) i a ≡ ok a')
                (length-values front) w),
          subst (Holds ptr_array_malloc_len a') (sym (values-append front post)) h',
        )

    pub remove_key :
        (front post : List (Key × V)) (x : Key × V) {a : Option (List (Option Key))}
        → Holds ptr_array_malloc_len a (keys (front ++ x ∷ post))
        → (a' : Option (List (Option Key))) × (shift_down (length post) (length front) a ≡ ok a')
          × Holds ptr_array_malloc_len a' (keys (front ++ post))
    remove_key front post x {a = a} h =
        let (a', w, h') =
          shift_down-remove ptr_array_malloc_len (keys front) (keys post) x.0
            (key_split front post x h) in
        (
          a',
          subst (λ (r : ℕ). shift_down r (length front) a ≡ ok a') (length-keys post)
              (subst (λ (i : ℕ). shift_down (length (keys post)) i a ≡ ok a') (length-keys front)
                w),
          subst (Holds ptr_array_malloc_len a') (sym (all_keys-append front post)) h',
        )

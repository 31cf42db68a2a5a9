-- ===== src/Dict/Represents.antt =====
-- What the arrays of a dictionary_t represent, and the growth, the adding and the removal of an entry on them.
use irods_netcdf.Base.{
  ℕ, ◌+◌, ◌-◌, ◌%◌, ◌<◌, ◌≡◌, refl, sym, ap, ◌∙◌, subst, inl, inr, Option, none, some, List, [],
  ◌∷◌, ◌++◌, arith, ◌==◌, Bool-cases, length, length-append,
}
use irods_netcdf.Status.{ok}
use irods_netcdf.Dict.Entries.{Key, keys}
use irods_netcdf.Dict.Attr.{Dictionary, write_cell, grow_attrs, append_attr, del_at}
use irods_netcdf.Dict.Holds.{Holds, HasRoom, Stored, Stored-grown, Stored-kept, write_cell-push}
use irods_netcdf.Dict.Parts.{
  values, values-append, all_keys-append, length-values, length-keys, remove_value, remove_key,
}

empty_of_length : {A : Type 0} (xs : List A) → length xs ≡ 0 → xs ≡ []
empty_of_length [] h = refl
empty_of_length (x ∷ xs) h = absurd (omega arith)

-- What the pointer to the value of an entry points to.
unfoldable pub cell_of : {V : Type 0} → Option V → Option (Option V)
cell_of none = none
cell_of (some v) = some (some v)

module _ {V : Type 0} (ptr_array_malloc_len : ℕ) where
  -- The entries of `d` are `es`; the arrays are whole blocks.
  pub record Represents (d : Dictionary V) (es : List (Key × V)) : Type 0 where
    pub counted : d.len ≡ length es
    pub key_stored : Stored ptr_array_malloc_len d.key (keys es)
    pub value_stored : Stored ptr_array_malloc_len d.value (values es)

  -- Both arrays have room behind the growth.
  pub grow_attrs-HasRoom :
      (d : Dictionary V) (es : List (Key × V))
      → 0 < ptr_array_malloc_len
      → Represents d es
      → (d' : Dictionary V) × (grow_attrs ptr_array_malloc_len d ≡ ok d')
        × (d'.len ≡ length es)
        × HasRoom ptr_array_malloc_len d'.key (keys es)
        × HasRoom ptr_array_malloc_len d'.value (values es)
  unfolding grow_attrs
  grow_attrs-HasRoom d es positive h =
      let ek : d.len ≡ length (keys es) = h.counted ∙ sym (length-keys es) in
      let ev : d.len ≡ length (values es) = h.counted ∙ sym (length-values es) in
      elim (Bool-cases (d.len % ptr_array_malloc_len == 0)) [
        | inl full ↦
            let (key', ck, rk) =
              Stored-grown ptr_array_malloc_len (keys es) d.len ek positive h.key_stored full in
            let (value', cv, rv) =
              Stored-grown ptr_array_malloc_len (values es) d.len ev positive h.value_stored full in
            (record d { key = key'; value = value' }, rw (full, ck, cv) refl, h.counted, rk, rv)
        | inr room ↦ (
          d,
          rw room refl,
          h.counted,
          Stored-kept ptr_array_malloc_len (keys es) d.len ek h.key_stored room,
          Stored-kept ptr_array_malloc_len (values es) d.len ev h.value_stored room,
        )
      ]

  pub append_attr-Represents :
      (d : Dictionary V) (es : List (Key × V)) (k : Key) (v : V)
      → d.len ≡ length es
      → HasRoom ptr_array_malloc_len d.key (keys es)
      → HasRoom ptr_array_malloc_len d.value (values es)
      → (d' : Dictionary V) × (append_attr k v d ≡ ok d') × Represents d' (es ++ (k, v) ∷ [])
  unfolding append_attr keys values
  append_attr-Represents d es k v e rk rv =
      let (key', wk, hk) = write_cell-push ptr_array_malloc_len (keys es) k rk in
      let (value', wv, hv) = write_cell-push ptr_array_malloc_len (values es) v rv in
      let ek : length (keys es) ≡ d.len = omega (arith, length-keys es) in
      let ev : length (values es) ≡ d.len = omega (arith, length-values es) in
      let wk' : write_cell d.key d.len (some k) ≡ ok key' =
        subst (λ (i : ℕ). write_cell d.key i (some k) ≡ ok key') ek wk in
      let wv' : write_cell d.value d.len (some v) ≡ ok value' =
        subst (λ (i : ℕ). write_cell d.value i (some v) ≡ ok value') ev wv in
      (
        record { len = d.len + 1; key = key'; value = value' },
        rw (wk', wv') refl,
        record {
          counted = omega (arith, length-append es ((k, v) ∷ []));
          key_stored =
              inr (
                subst (Holds ptr_array_malloc_len key') (sym (all_keys-append es ((k, v) ∷ [])))
                  hk);
          value_stored =
              inr (
                subst (Holds ptr_array_malloc_len value') (sym (values-append es ((k, v) ∷ [])))
                  hv);
        },
      )

  pub split :
      (d : Dictionary V) (front post : List (Key × V)) (x : Key × V) {es : List (Key × V)}
      → es ≡ front ++ x ∷ post
      → Represents d es
      → (d.len ≡ length (keys front ++ x.0 ∷ keys post))
        × Holds ptr_array_malloc_len d.key (keys (front ++ x ∷ post))
        × Holds ptr_array_malloc_len d.value (values (front ++ x ∷ post))
  split d front post x at h = (
    omega (
      arith,
      h.counted,
      ap length at,
      length-append front (x ∷ post),
      length-append (keys front) (x.0 ∷ keys post),
      length-keys front,
      length-keys post,
    ),
    keys_there (
        subst (λ (es' : List (Key × V)). Stored ptr_array_malloc_len d.key (keys es')) at
          h.key_stored),
    values_there (
        subst (λ (es' : List (Key × V)). Stored ptr_array_malloc_len d.value (values es')) at
          h.value_stored),
  )
    where
      keys_there :
          Stored ptr_array_malloc_len d.key (keys (front ++ x ∷ post))
          → Holds ptr_array_malloc_len d.key (keys (front ++ x ∷ post))
      keys_there (inl (e, _)) = absurd (
          omega
            (arith, ap length e, length-keys (front ++ x ∷ post), length-append front (x ∷ post)))
      keys_there (inr s) = s

      values_there :
          Stored ptr_array_malloc_len d.value (values (front ++ x ∷ post))
          → Holds ptr_array_malloc_len d.value (values (front ++ x ∷ post))
      values_there (inl (e, _)) = absurd (
          omega
            (arith, ap length e, length-values (front ++ x ∷ post), length-append front (x ∷ post)))
      values_there (inr s) = s

  pub del_at-Represents :
      (d : Dictionary V) (front post : List (Key × V)) (x : Key × V)
      → d.len ≡ length (front ++ x ∷ post)
      → Holds ptr_array_malloc_len d.key (keys (front ++ x ∷ post))
      → Holds ptr_array_malloc_len d.value (values (front ++ x ∷ post))
      → (d' : Dictionary V) × (del_at (length front) d ≡ ok d') × Represents d' (front ++ post)
  unfolding del_at keys values
  del_at-Represents d front post x n hk hv =
      let (key', sk, hk') = remove_key ptr_array_malloc_len front post x hk in
      let (value', sv, hv') = remove_value ptr_array_malloc_len front post x hv in
      let left : d.len - 1 - length front ≡ length post =
        omega (arith, n, length-append front (x ∷ post)) in
      let len : d.len - 1 ≡ length (front ++ post) =
        omega (arith, n, length-append front (x ∷ post), length-append front post) in
      elim (Bool-cases (d.len - 1 == 0)) [
        | inl last ↦
            let none_left : front ++ post ≡ [] = empty_of_length (front ++ post) (ground arith) in
            (
              record { len = 0; key = none; value = none },
              rw (left, sk, sv, last) refl,
              rw none_left (record {
                counted = refl;
                key_stored = inl (refl, refl);
                value_stored = inl (refl, refl);
              }),
            )
        | inr more ↦ (
          record { len = d.len - 1; key = key'; value = value' },
          rw (left, sk, sv, more) refl,
          record { counted = len; key_stored = inr hk'; value_stored = inr hv' },
        )
      ]

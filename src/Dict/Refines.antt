-- ===== src/Dict/Refines.antt =====
-- The arrays of a dictionary_t hold its entries: dictSetAttr, dictGetAttr and dictDelAttr do what the
-- operations on entries do, never outside the arrays.
use irods_netcdf.Base.{
  ℕ, ◌<◌, ◌≡◌, refl, sym, ap, ◌∙◌, inr, some, List, ◌∷◌, ◌++◌, arith, length, length-append,
}
use irods_netcdf.Status.{ok}
use irods_netcdf.Dict.Entries.{Key, keys, set_entry, get_entry, del_entry, set_entry-absent}
use irods_netcdf.Dict.Lookup.{
  absent, present, lookup, set_entry-present, get_entry-present, get_entry-absent,
  del_entry-present, del_entry-absent,
}
use irods_netcdf.Dict.Attr.{Dictionary, dict_set_attr, dict_get_attr, dict_del_attr}
use irods_netcdf.Dict.Parts.{
  length-keys, find_absent, find_present, key_split, key_join, set_value, read_value,
}
use irods_netcdf.Dict.Represents.{
  cell_of, Represents, grow_attrs-HasRoom, append_attr-Represents, split, del_at-Represents,
}

module _ {V : Type 0} (ptr_array_malloc_len : ℕ) where
  dict_set_attr-Represents :
      (d : Dictionary V) (es : List (Key × V)) (k : Key) (v : V)
      → 0 < ptr_array_malloc_len
      → Represents ptr_array_malloc_len d es
      → (d' : Dictionary V) × (dict_set_attr ptr_array_malloc_len (some d) k v ≡ ok d')
        × Represents ptr_array_malloc_len d' (set_entry es k v)
  unfolding dict_set_attr
  dict_set_attr-Represents d es k v positive h = elim (lookup k es) [
    | absent new ↦
        let e : d.len ≡ length (keys es) = h.counted ∙ sym (length-keys es) in
        let (found, _) = find_absent ptr_array_malloc_len (keys es) k d.len e h.key_stored new in
        let (grown, g, c, rk, rv) = grow_attrs-HasRoom ptr_array_malloc_len d es positive h in
        let (d', a, r) = append_attr-Represents ptr_array_malloc_len grown es k v c rk rv in
        (d', rw (found, g) a, rw (set_entry-absent es k v new) r)
    | present front post x at new same ↦
        let (counted, keys_at, values_at) = split ptr_array_malloc_len d front post x at h in
        let (found, _) =
          find_present ptr_array_malloc_len (keys front) (keys post) x.0 k d.len (length front)
            counted (length-keys front) (key_split ptr_array_malloc_len front post x keys_at) new
            same in
        let (value', w, hv) = set_value ptr_array_malloc_len front post x v values_at in
        let n : d.len ≡ length (front ++ (x.0, v) ∷ post) = omega (
          arith,
          h.counted,
          ap length at,
          length-append front (x ∷ post),
          length-append front ((x.0, v) ∷ post),
        ) in
        let hk =
          key_join ptr_array_malloc_len front post (x.0, v)
            (key_split ptr_array_malloc_len front post x keys_at) in
        (
          record d { value = value' },
          rw (found, w) refl,
          rw (at, set_entry-present front post x k v new same)
              (record { counted = n; key_stored = inr hk; value_stored = inr hv }),
        )
  ]

  dict_get_attr-Represents :
      (d : Dictionary V) (es : List (Key × V)) (k : Key)
      → Represents ptr_array_malloc_len d es
      → dict_get_attr (some d) k ≡ ok (cell_of (get_entry es k))
  unfolding dict_get_attr cell_of
  dict_get_attr-Represents d es k h = elim (lookup k es) [
    | absent new ↦
        let e : d.len ≡ length (keys es) = h.counted ∙ sym (length-keys es) in
        let (found, _) = find_absent ptr_array_malloc_len (keys es) k d.len e h.key_stored new in
        rw (found, get_entry-absent es k new) refl
    | present front post x at new same ↦
        let (counted, keys_at, values_at) = split ptr_array_malloc_len d front post x at h in
        let (found, _) =
          find_present ptr_array_malloc_len (keys front) (keys post) x.0 k d.len (length front)
            counted (length-keys front) (key_split ptr_array_malloc_len front post x keys_at) new
            same in
        let r = read_value ptr_array_malloc_len front post x values_at in
        rw (found, r, at, get_entry-present front post x k new same) refl
  ]

  dict_del_attr-Represents :
      (d : Dictionary V) (es : List (Key × V)) (k : Key)
      → Represents ptr_array_malloc_len d es
      → (d' : Dictionary V) × (dict_del_attr d k ≡ ok d')
        × Represents ptr_array_malloc_len d' (del_entry es k)
  unfolding dict_del_attr
  dict_del_attr-Represents d es k h = elim (lookup k es) [
    | absent new ↦
        let e : d.len ≡ length (keys es) = h.counted ∙ sym (length-keys es) in
        let (_, found) = find_absent ptr_array_malloc_len (keys es) k d.len e h.key_stored new in
        (d, rw found refl, rw (del_entry-absent es k new) h)
    | present front post x at new same ↦
        let (counted, keys_at, values_at) = split ptr_array_malloc_len d front post x at h in
        let (_, found) =
          find_present ptr_array_malloc_len (keys front) (keys post) x.0 k d.len (length front)
            counted (length-keys front) (key_split ptr_array_malloc_len front post x keys_at) new
            same in
        let (d', e, r) =
          del_at-Represents ptr_array_malloc_len d front post x
            (omega (arith, h.counted, ap length at)) keys_at values_at in
        (d', rw found e, rw (at, del_entry-present front post x k new same) r)
  ]

  -- Where the arrays of a dictionary represent entries and PTR_ARRAY_MALLOC_LEN is positive, no access of the
  -- three functions is outside the arrays. Setting succeeds and gives arrays that represent the entries with
  -- the value of the key replaced, or added at the end where the key is new; getting gives the value of the
  -- key, or nothing where there is none; deleting gives arrays that represent the entries without the key.
  pub dictionary-Represents :
      (d : Dictionary V) (es : List (Key × V)) (k : Key) (v : V)
      → 0 < ptr_array_malloc_len
      → Represents ptr_array_malloc_len d es
      → ((d' : Dictionary V) × (dict_set_attr ptr_array_malloc_len (some d) k v ≡ ok d')
          × Represents ptr_array_malloc_len d' (set_entry es k v))
        × (dict_get_attr (some d) k ≡ ok (cell_of (get_entry es k)))
        × ((d' : Dictionary V) × (dict_del_attr d k ≡ ok d')
            × Represents ptr_array_malloc_len d' (del_entry es k))
  dictionary-Represents d es k v positive h = (
    dict_set_attr-Represents d es k v positive h,
    dict_get_attr-Represents d es k h,
    dict_del_attr-Represents d es k h,
  )

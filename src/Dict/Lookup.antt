-- ===== src/Dict/Lookup.antt =====
-- Where the entry of a key stands among the entries of a dictionary, and what setting, getting and deleting
-- do there.
use irods_netcdf.Base.{
  ◌≡◌, refl, ap, inl, inr, true, false, none, some, List, [], ◌∷◌, ◌++◌, arith, Bool-cases,
  strcmp_eq,
}
use irods_netcdf.Dict.Entries.{Key, key_in, keys, set_entry, get_entry, del_entry}
use irods_netcdf.Dict.Cells.{not_key_in}

module _ {V : Type 0} where
  -- Where the entry of a key stands.
  pub data Lookup (k : Key) : List (Key × V) → Type 0 where
    absent : {es : List (Key × V)} → key_in (keys es) k ≡ false → Lookup k es
    present :
        {es : List (Key × V)} (front post : List (Key × V)) (e : Key × V)
        → es ≡ front ++ e ∷ post
        → key_in (keys front) k ≡ false
        → strcmp_eq k e.0 ≡ true
        → Lookup k es

  pub lookup : (k : Key) (es : List (Key × V)) → Lookup k es
  unfolding keys key_in
  lookup k [] = absent refl
  lookup k (e ∷ es) = elim (Bool-cases (strcmp_eq k e.0)) [
    | inl same ↦ present [] es e refl refl same
    | inr other ↦ elim (lookup k es) [
      | absent new ↦ absent (ground arith)
      | present front post e' at new same ↦
          present (e ∷ front) post e' (ap (◌∷◌ e) at) (ground arith) same
    ]
  ]

  pub set_entry-present :
      (front post : List (Key × V)) (e : Key × V) (k : Key) (v : V)
      → key_in (keys front) k ≡ false
      → strcmp_eq k e.0 ≡ true
      → set_entry (front ++ e ∷ post) k v ≡ front ++ (e.0, v) ∷ post
  unfolding set_entry keys
  set_entry-present [] post e k v new same = rw same refl
  set_entry-present (x ∷ front) post e k v new same =
      let (other, new') = not_key_in k x.0 (keys front) new in
      rw other (ap (◌∷◌ x) (set_entry-present front post e k v new' same))

  pub get_entry-present :
      (front post : List (Key × V)) (e : Key × V) (k : Key)
      → key_in (keys front) k ≡ false
      → strcmp_eq k e.0 ≡ true
      → get_entry (front ++ e ∷ post) k ≡ some e.1
  unfolding get_entry keys
  get_entry-present [] post e k new same = rw same refl
  get_entry-present (x ∷ front) post e k new same =
      let (other, new') = not_key_in k x.0 (keys front) new in
      rw other (get_entry-present front post e k new' same)

  pub get_entry-absent :
      (es : List (Key × V)) (k : Key) → key_in (keys es) k ≡ false → get_entry es k ≡ none
  unfolding get_entry keys
  get_entry-absent [] k new = refl
  get_entry-absent (x ∷ es) k new =
      let (other, new') = not_key_in k x.0 (keys es) new in rw other (get_entry-absent es k new')

  pub del_entry-present :
      (front post : List (Key × V)) (e : Key × V) (k : Key)
      → key_in (keys front) k ≡ false
      → strcmp_eq k e.0 ≡ true
      → del_entry (front ++ e ∷ post) k ≡ front ++ post
  unfolding del_entry keys
  del_entry-present [] post e k new same = rw same refl
  del_entry-present (x ∷ front) post e k new same =
      let (other, new') = not_key_in k x.0 (keys front) new in
      rw other (ap (◌∷◌ x) (del_entry-present front post e k new' same))

  pub del_entry-absent :
      (es : List (Key × V)) (k : Key) → key_in (keys es) k ≡ false → del_entry es k ≡ es
  unfolding del_entry keys
  del_entry-absent [] k new = refl
  del_entry-absent (x ∷ es) k new =
      let (other, new') = not_key_in k x.0 (keys es) new in
      rw other (ap (◌∷◌ x) (del_entry-absent es k new'))

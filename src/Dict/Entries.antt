-- ===== src/Dict/Entries.antt =====
-- A dictionary of api/lib/ooiCi.cpp seen as its entries, in the order in which they were added.
use irods_netcdf.Base.{
  ◌≡◌, refl, ap, ◌∙◌, Bool, false, ◌||◌, Option, none, some, List, [], ◌∷◌, ◌++◌, ℕ, if◌then◌else◌,
  strcmp_eq, arith,
}

abbrev pub Key : Type 0
Key = List ℕ

unfoldable pub key_in : List Key → Key → Bool
key_in [] k = false
key_in (x ∷ ks) k = strcmp_eq k x || key_in ks k

module _ {ℓ} {V : Type ℓ} where
  unfoldable pub keys : List (Key × V) → List Key
  keys [] = []
  keys (e ∷ es) = e.0 ∷ keys es

  -- The value of a key that is there is replaced, a new key goes to the end.
  unfoldable pub set_entry : List (Key × V) → Key → V → List (Key × V)
  set_entry [] k v = (k, v) ∷ []
  set_entry (e ∷ es) k v = if strcmp_eq k e.0 then (e.0, v) ∷ es else e ∷ set_entry es k v

  unfoldable pub get_entry : List (Key × V) → Key → Option V
  get_entry [] k = none
  get_entry (e ∷ es) k = if strcmp_eq k e.0 then some e.1 else get_entry es k

  unfoldable pub del_entry : List (Key × V) → Key → List (Key × V)
  del_entry [] k = []
  del_entry (e ∷ es) k = if strcmp_eq k e.0 then es else e ∷ del_entry es k

  pub set_entry-absent :
      (es : List (Key × V)) (k : Key) (v : V)
      → key_in (keys es) k ≡ false
      → set_entry es k v ≡ es ++ (k, v) ∷ []
  unfolding set_entry keys key_in
  set_entry-absent [] k v h = refl
  set_entry-absent (e ∷ es) k v h = ground (arith, set_entry-absent es k v)

  pub keys-append :
      (es : List (Key × V)) {ks : List Key} (k : Key) (v : V)
      → keys es ≡ ks
      → keys (es ++ (k, v) ∷ []) ≡ ks ++ k ∷ []
  unfolding keys
  keys-append es {ks = ks} k v h = at_end es ∙ ap (λ (xs : List Key). xs ++ k ∷ []) h
    where
      at_end : (xs : List (Key × V)) → keys (xs ++ (k, v) ∷ []) ≡ keys xs ++ k ∷ []
      at_end [] = refl
      at_end (e ∷ xs) = ap (◌∷◌ e.0) (at_end xs)

-- ===== src/Dict/Last.antt =====
-- The status of jsonUnpackDict and jsonUnpackArray is the one of the last element: an element sets it
-- again, and it is tested behind the loop.
use irods_netcdf.Base.{◌≡◌, ◌≢◌, refl, ◌∙◌, Option, none, some, List, [], ◌∷◌, ◌++◌}
use irods_netcdf.Status.{Result, ok, err, fault, Err, ◌>>=◌}
use irods_netcdf.Dict.Entries.{Key, set_entry}
use irods_netcdf.Dict.Json.{
  Value, Json, json_object, json_array, json_string, json_integer, json_real, json_true, json_false,
  json_null, Members, Elements, no_elements, element, json_unpack_array, no_members, member,
  to_members, JsonLib, status_of, with_status, set_if_ok, json_unpack_value, json_unpack_dict,
  json_unpack_ooi_resp_dict,
}

-- A member that is unpacked is set, and any other leaves the entries.
abbrev pub with_member :
    {F : Type 0} → List (Key × Value F) → Key → Result (Value F) → List (Key × Value F)
with_member es k (ok v) = set_entry es k v
with_member es k (err e) = es
with_member es k fault = es

set_if_ok-with_member :
    {F : Type 0} (es : List (Key × Value F)) (k : Key) (v : Result (Value F))
    → set_if_ok es k v ≡ with_member es k v
unfolding set_if_ok
set_if_ok-with_member es k (ok v) = refl
set_if_ok-with_member es k (err e) = refl
set_if_ok-with_member es k fault = refl

module _ {F D : Type 0} (lib : JsonLib F D) where
  -- The entries of the members that are unpacked without an error.
  unfoldable pub unpacked : List (Key × Json D) → List (Key × Value F) → List (Key × Value F)
  unpacked [] es = es
  unpacked (m ∷ ms) es = unpacked ms (with_member es m.0 (json_unpack_value lib m.1))

  with_last_lem :
      (k : Key) (v : Result (Value F)) (es : List (Key × Value F))
      → v ≢ fault
      → with_status (status_of v) (set_if_ok es k v) ≡ (v >>= λ x. ok (set_entry es k x))
  unfolding with_status status_of set_if_ok
  with_last_lem k (ok x) es h = refl
  with_last_lem k (err e) es h = refl
  with_last_lem k fault es h = absurd (h refl)

  with_status_defined : {A : Type 0} (status : Option Err) (a : A) → with_status status a ≢ fault
  unfolding with_status
  with_status_defined none a e = cc
  with_status_defined (some x) a e = cc

  >>=_ok_defined :
      {A B : Type 0} (r : Result A) (f : A → B) → r ≢ fault → (r >>= λ a. ok (f a)) ≢ fault
  >>=_ok_defined (ok a) f h e = cc
  >>=_ok_defined (err x) f h e = cc
  >>=_ok_defined fault f h e = h refl

  mutual
    unfolding json_unpack_dict

    json_unpack_value_defined : (j : Json D) → json_unpack_value lib j ≢ fault
    json_unpack_value_defined (json_object ms) e =
        >>=_ok_defined (json_unpack_dict lib ms [] none) _ (json_unpack_dict_defined ms [] none) e
    json_unpack_value_defined (json_array xs) e =
        >>=_ok_defined (json_unpack_array lib xs [] none) _ (json_unpack_array_defined xs [] none) e
    json_unpack_value_defined (json_string s) e = cc
    json_unpack_value_defined (json_integer n) e = cc
    json_unpack_value_defined (json_real x) e = cc
    json_unpack_value_defined json_true e = cc
    json_unpack_value_defined json_false e = cc
    json_unpack_value_defined json_null e = cc

    json_unpack_dict_defined :
        (ms : Members D) (es : List (Key × Value F)) (status : Option Err)
        → json_unpack_dict lib ms es status ≢ fault
    json_unpack_dict_defined no_members es status = with_status_defined status es
    json_unpack_dict_defined (member k j ms) es status =
        json_unpack_dict_defined ms _ (status_of (json_unpack_value lib j))

    json_unpack_array_defined :
        (xs : Elements D) (vs : List (Value F)) (status : Option Err)
        → json_unpack_array lib xs vs status ≢ fault
    json_unpack_array_defined no_elements vs status = with_status_defined status vs
    json_unpack_array_defined (element j xs) vs status =
        json_unpack_array_defined xs _ (status_of (json_unpack_value lib j))

  json_unpack_dict_last :
      (ms : List (Key × Json D)) (k : Key) (j : Json D) (es : List (Key × Value F))
      (status : Option Err)
      → json_unpack_dict lib (to_members (ms ++ (k, j) ∷ [])) es status
        ≡ with_status
            (status_of (json_unpack_value lib j))
            (set_if_ok (unpacked ms es) k (json_unpack_value lib j))
  unfolding json_unpack_dict to_members unpacked
  json_unpack_dict_last [] k j es status = refl
  json_unpack_dict_last (m ∷ ms) k j es status =
      rw (set_if_ok-with_member es m.0 (json_unpack_value lib m.1)) (
        json_unpack_dict_last ms k j (with_member es m.0 (json_unpack_value lib m.1))
          (status_of (json_unpack_value lib m.1)))

  -- A document with at least one member is unpacked with the status of its last member: where that one is
  -- unpacked, the dictionary holds it and those before it that are unpacked, the others are left out
  -- without an error; where it is not, its error is the result.
  pub json_unpack_ooi_resp_dict_last :
      (ms : List (Key × Json D)) (k : Key) (j : Json D)
      → json_unpack_ooi_resp_dict lib (json_object (to_members (ms ++ (k, j) ∷ [])))
        ≡ (json_unpack_value lib j >>= λ v. ok (set_entry (unpacked ms []) k v))
  unfolding json_unpack_ooi_resp_dict
  json_unpack_ooi_resp_dict_last ms k j =
      json_unpack_dict_last ms k j [] none
      ∙ with_last_lem k (json_unpack_value lib j) (unpacked ms []) (json_unpack_value_defined j)

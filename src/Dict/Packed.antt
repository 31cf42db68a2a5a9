-- ===== src/Dict/Packed.antt =====
-- What jsonPackDictionary writes is what jsonUnpackOoiRespDict reads.
use irods_netcdf.Base.{
  to_int, ◌<◌, ◌≡◌, refl, ap, ◌⊎◌, inl, inr, false, none, some, List, [], ◌∷◌, ◌++◌, append_assoc,
  append-nil, arith, ℤ, pos, negsuc,
}
use irods_netcdf.Status.{ok, ◌>>=◌}
use irods_netcdf.Dict.Entries.{Key, key_in, keys, keys-append, set_entry-absent}
use irods_netcdf.Dict.Json.{
  Value, str_ms_t, int_ms_t, float_ms_t, double_ms_t, bool_ms_t, dictionary_ms_t, gen_array_ms_t,
  other_ms_t, Entries, no_entries, entry, Json, json_object, json_string, json_integer, json_real,
  json_true, json_false, to_entries, to_members, JsonLib, json_pack_value, json_pack_entries,
  json_pack_dictionary, json_unpack_value, json_unpack_dict, json_unpack_ooi_resp_dict, object_set,
  set_if_ok, status_of, with_status, is_zero,
}

-- What an int of 32 bits holds.
unfoldable pub IsInt : ℤ → Type 0
IsInt (pos n) = n < 2147483648
IsInt (negsuc n) = n < 2147483648

to_int_lem : (n : ℤ) → IsInt n → to_int n ≡ n
unfolding to_int IsInt
to_int_lem (pos n) h = ground arith
to_int_lem (negsuc n) h = ground arith

unfoldable pub entry_list : {F : Type 0} → Entries F → List (Key × Value F)
entry_list no_entries = []
entry_list (entry k v es) = (k, v) ∷ entry_list es

to_entries-entry_list : {F : Type 0} (es : Entries F) → to_entries (entry_list es) ≡ es
unfolding to_entries entry_list
to_entries-entry_list no_entries = refl
to_entries-entry_list (entry k v es) = ap (entry k v) (to_entries-entry_list es)

-- `InOrder` holds of the keys that the library keeps in the order in which they are set: all lists for a
-- library that keeps that order, the sorted ones for a library that sorts.
pub record JsonLaws {F D : Type 0} (lib : JsonLib F D) (InOrder : List Key → Type 0) : Type 0 where
  pub to_float-to_double : (x : F) → lib.to_float (lib.to_double x) ≡ x
  pub object_set_new-new_key :
      (obj : List (Key × Json D)) (k : Key) (j : Json D)
      → key_in (keys obj) k ≡ false
      → InOrder (keys obj ++ k ∷ [])
      → lib.object_set_new obj k j ≡ some (obj ++ (k, j) ∷ [])

module _ {F : Type 0} (InOrder : List Key → Type 0) where
  unfoldable mutual
    unfolding IsInt

    -- What comes back the same: no arrays, which are not packed, and no long integers, which come back as
    -- ints.
    pub IsPackable : Value F → Type 0
    IsPackable (str_ms_t s) = Unit {0}
    IsPackable (int_ms_t n) = IsInt n
    IsPackable (float_ms_t x) = Unit {0}
    IsPackable (double_ms_t n) = ⊥
    IsPackable (bool_ms_t n) = (n ≡ pos 0) ⊎ (n ≡ pos 1)
    IsPackable (dictionary_ms_t es) = ArePackable es []
    IsPackable (gen_array_ms_t vs) = ⊥
    IsPackable (other_ms_t type_pi) = ⊥

    -- The entries behind the keys `ks`.
    pub ArePackable : Entries F → List Key → Type 0
    ArePackable no_entries ks = Unit {0}
    ArePackable (entry k v es) ks =
        IsPackable v
        × (key_in ks k ≡ false)
        × InOrder (ks ++ k ∷ [])
        × ArePackable es (ks ++ k ∷ [])

module _ {F D : Type 0} (lib : JsonLib F D) (InOrder : List Key → Type 0)
    (laws : JsonLaws lib InOrder) where
  -- A value that is packed as `j`, which is unpacked to the value.
  record Comes (v : Value F) : Type 0 where
    packed : Json D
    packs : json_pack_value lib v ≡ ok packed
    unpacks : json_unpack_value lib packed ≡ ok v

  -- The members that entries are packed into behind the keys `ks`.
  record AllCome (es : Entries F) (ks : List Key) : Type 0 where
    members : List (Key × Json D)
    pack :
        (obj : List (Key × Json D))
        → keys obj ≡ ks
        → json_pack_entries lib es obj ≡ ok (obj ++ members)
    unpack :
        (seen : List (Key × Value F))
        → keys seen ≡ ks
        → json_unpack_dict lib (to_members members) seen none ≡ ok (seen ++ entry_list es)

  object_set-new_key :
      (obj : List (Key × Json D)) (ks : List Key) (k : Key) (j : Json D)
      → keys obj ≡ ks
      → key_in ks k ≡ false
      → InOrder (ks ++ k ∷ [])
      → object_set lib obj k j ≡ ok (obj ++ (k, j) ∷ [])
  unfolding object_set
  object_set-new_key obj ks k j e new order =
      rw (object_set, laws.object_set_new-new_key obj k j (rw e new) (rw e order)) refl

  add_entry :
      (k : Key) (v : Value F) (es : Entries F) (ks : List Key)
      → key_in ks k ≡ false
      → InOrder (ks ++ k ∷ [])
      → Comes v
      → AllCome es (ks ++ k ∷ [])
      → AllCome (entry k v es) ks
  unfolding json_pack_entries json_unpack_dict to_members entry_list object_set set_if_ok status_of
  add_entry k v es ks new order c rest = record {
    members = (k, c.packed) ∷ rest.members;
    pack = λ obj e.
        let set = object_set-new_key obj ks k c.packed e new order in
        rw (c.packs, set, rest.pack _ (keys-append obj k c.packed e), append_assoc) refl;
    unpack = λ seen e.
        rw (c.unpacks, set_entry-absent seen k v (rw e new))
          (rw (rest.unpack _ (keys-append seen k v e), append_assoc) refl);
  }

  mutual
    unfolding json_pack_entries json_unpack_dict to_members with_status is_zero IsPackable
        entry_list keys

    comes : (v : Value F) → IsPackable InOrder v → Comes v
    comes (str_ms_t s) h = record { packed = json_string s; packs = refl; unpacks = refl }
    comes (int_ms_t n) h = record {
      packed = json_integer n;
      packs = refl;
      unpacks = rw (to_int_lem n h) refl;
    }
    comes (float_ms_t x) h = record {
      packed = json_real (lib.to_double x);
      packs = refl;
      unpacks = rw (laws.to_float-to_double x) refl;
    }
    comes (double_ms_t n) h = absurd h
    comes (bool_ms_t n) (inl e) = record {
      packed = json_false;
      packs = rw e refl;
      unpacks = rw e refl;
    }
    comes (bool_ms_t n) (inr e) = record {
      packed = json_true;
      packs = rw e refl;
      unpacks = rw e refl;
    }
    comes (dictionary_ms_t es) h =
        let a = all_come es [] h in
        record {
          packed = json_object (to_members a.members);
          packs = rw (a.pack [] refl) refl;
          unpacks = rw (a.unpack [] refl, to_entries-entry_list es) refl;
        }
    comes (gen_array_ms_t vs) h = absurd h
    comes (other_ms_t type_pi) h = absurd h

    all_come : (es : Entries F) (ks : List Key) → ArePackable InOrder es ks → AllCome es ks
    all_come no_entries ks h = record {
      members = [];
      pack = λ obj e. rw append-nil refl;
      unpack = λ seen e. rw append-nil refl;
    }
    all_come (entry k v es) ks (p, new, order, ps) =
        add_entry k v es ks new order (comes v p) (all_come es (ks ++ k ∷ []) ps)

  -- A dictionary that holds texts, floats, ints of 32 bits, Booleans 0 and 1 and dictionaries of these,
  -- with no key twice and with its keys in the order of the JSON library, is packed into a document, and
  -- the unpacking of the document gives the same dictionary.
  pub json_pack_dictionary-unpacked :
      (es : Entries F)
      → ArePackable InOrder es []
      → json_pack_dictionary lib (some es) >>= json_unpack_ooi_resp_dict lib ≡ ok (entry_list es)
  unfolding json_pack_dictionary json_unpack_ooi_resp_dict keys
  json_pack_dictionary-unpacked es h =
      let a = all_come es [] h in rw (a.pack [] refl) (a.unpack [] refl)

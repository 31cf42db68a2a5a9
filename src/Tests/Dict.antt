-- ===== src/Tests/Dict.antt =====
-- Dictionaries on small examples.
use irods_netcdf.Base.{
  ℕ, ◌≡◌, refl, ap, strcmp_eq, inr, Bool, false, none, some, List, [], ◌∷◌, ◌++◌, codes, arith, pos,
  negsuc,
}
use irods_netcdf.Status.{ok, ◌>>=◌}
use irods_netcdf.Dict.Entries.{Key, key_in, keys, set_entry, get_entry, del_entry, set_entry-absent}
use irods_netcdf.Dict.Attr.{Dictionary, dict_set_attr, dict_get_attr, dict_del_attr}
use irods_netcdf.Dict.Cells.{cells}
use irods_netcdf.Dict.Parts.{values}
use irods_netcdf.Dict.Represents.{Represents, cell_of}
use irods_netcdf.Dict.Refines.{dictionary-Represents}
use irods_netcdf.Dict.Json.{
  str_ms_t, int_ms_t, double_ms_t, bool_ms_t, dictionary_ms_t, Entries, no_entries, entry,
  json_object, json_integer, json_null, json_true, JsonLib, to_members, json_pack_dictionary,
  json_pack_value, json_unpack_value, json_unpack_ooi_resp_dict,
}
use irods_netcdf.Dict.Packed.{
  IsInt, JsonLaws, ArePackable, entry_list, json_pack_dictionary-unpacked,
}
use irods_netcdf.Dict.Last.{unpacked, json_unpack_ooi_resp_dict_last}

abbrev name_key : Key
name_key = codes "name"

abbrev rev_key : Key
rev_key = codes "rev"

-- One entry, in blocks of two.
abbrev one : Dictionary ℕ
one = record { len = 1; key = some (some name_key ∷ none ∷ []); value = some (some 7 ∷ none ∷ []) }

one-Represents : Represents 2 one ((name_key, 7) ∷ [])
unfolding keys values cells
one-Represents = record {
  counted = refl;
  key_stored = inr (record { spare = none ∷ []; at = refl; blocks = refl });
  value_stored = inr (record { spare = none ∷ []; at = refl; blocks = refl });
}

dictionary-Represents_example :
    ((d' : Dictionary ℕ) × (dict_set_attr 2 (some one) rev_key 9 ≡ ok d')
      × Represents 2 d' (set_entry ((name_key, 7) ∷ []) rev_key 9))
    × (dict_get_attr (some one) rev_key ≡ ok (cell_of (get_entry ((name_key, 7) ∷ []) rev_key)))
    × ((d' : Dictionary ℕ) × (dict_del_attr one rev_key ≡ ok d')
        × Represents 2 d' (del_entry ((name_key, 7) ∷ []) rev_key))
dictionary-Represents_example =
    dictionary-Represents 2 one ((name_key, 7) ∷ []) rev_key 9 (omega arith) one-Represents

two_set :
    dict_set_attr 2 (some one) rev_key 9
    ≡ ok (record {
      len = 2;
      key = some (some name_key ∷ some rev_key ∷ []);
      value = some (some 7 ∷ some 9 ∷ []);
    })
unfolding dict_set_attr strcmp_eq
two_set = refl

last_deleted : dict_del_attr one name_key ≡ ok (record { len = 0; key = none; value = none })
unfolding dict_del_attr strcmp_eq
last_deleted = refl

-- A library that keeps the order, with the numbers as floats and doubles.
lib : Bool → JsonLib ℕ ℕ
lib long_long = record {
  long_long = long_long;
  to_double = λ x. x;
  to_float = λ x. x;
  object_set_new = λ obj k j. some (set_entry obj k j);
}

AnyOrder : List Key → Type 0
AnyOrder ks = Unit {0}

lib-JsonLaws : JsonLaws (lib false) AnyOrder
unfolding lib
lib-JsonLaws = record {
  to_float-to_double = λ x. refl;
  object_set_new-new_key = λ obj k j new order. ap some (set_entry-absent obj k j new);
}

abbrev params : Entries ℕ
params = entry name_key (str_ms_t (codes "a")) (
    entry rev_key
      (dictionary_ms_t
        (entry name_key (int_ms_t (negsuc 4)) (entry rev_key (bool_ms_t (pos 1)) no_entries)))
      no_entries)

params-ArePackable : ArePackable AnyOrder params []
unfolding ArePackable AnyOrder IsInt key_in strcmp_eq
params-ArePackable =
    (tt, refl, tt, ((omega arith, refl, tt, (inr refl, refl, tt, tt)), refl, tt, tt))

json_pack_dictionary-unpacked_example :
    json_pack_dictionary (lib false) (some params) >>= json_unpack_ooi_resp_dict (lib false)
    ≡ ok (entry_list params)
json_pack_dictionary-unpacked_example =
    json_pack_dictionary-unpacked (lib false) AnyOrder lib-JsonLaws params params-ArePackable

-- The null before the last member is left out.
json_unpack_ooi_resp_dict_last_example :
    json_unpack_ooi_resp_dict
      (lib false)
      (json_object (to_members (((name_key, json_null) ∷ []) ++ (rev_key, json_true) ∷ [])))
    ≡ (json_unpack_value (lib false) json_true >>= λ v.
        ok (set_entry (unpacked (lib false) ((name_key, json_null) ∷ []) []) rev_key v))
json_unpack_ooi_resp_dict_last_example =
    json_unpack_ooi_resp_dict_last (lib false) ((name_key, json_null) ∷ []) rev_key json_true

null_left_out :
    json_unpack_ooi_resp_dict
      (lib false)
      (json_object (to_members ((name_key, json_null) ∷ (rev_key, json_true) ∷ [])))
    ≡ ok ((rev_key, bool_ms_t (pos 1)) ∷ [])
unfolding json_unpack_ooi_resp_dict to_members lib
null_left_out = refl

-- 2 ^ 32 + 5 is packed as 5 where the integers of the library are not long long.
long_cut : json_pack_value (lib false) (double_ms_t (pos 4294967301)) ≡ ok (json_integer (pos 5))
unfolding json_pack_value lib
long_cut = refl

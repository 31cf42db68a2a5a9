-- ===== src/Dict/Json.antt =====
-- api/lib/ooiCi.cpp: dictionaries into JSON and back. The JSON library is a parameter; a document is
-- what its type tests, accessors and iterators show of it, with the types that include/myjansson.h
-- lists.
use irods_netcdf.Base.{
  to_int, ℕ, Bool, false, Option, none, some, List, [], ◌∷◌, ◌++◌, ◌==◌, if◌then◌else◌, ℤ, pos,
  negsuc,
}
use irods_netcdf.Status.{
  Result, ok, err, fault, Err, code, ◌>>=◌, user_null_input_err, ooi_dict_type_not_supported,
  ooi_json_obj_set_err, ooi_json_type_err,
}
use irods_netcdf.Dict.Entries.{Key, set_entry}

-- dictValue_t: the type_PI with what ptr points to. `F` is the float of C.
mutual
  pub data Value (F : Type 0) : Type 0 where
    str_ms_t : List ℕ → Value F
    int_ms_t : ℤ → Value F
    float_ms_t : F → Value F
    double_ms_t : ℤ → Value F
    bool_ms_t : ℤ → Value F
    dictionary_ms_t : Entries F → Value F
    gen_array_ms_t : Values F → Value F
    other_ms_t : List ℕ → Value F

  -- dictionary_t
  pub data Entries (F : Type 0) : Type 0 where
    no_entries : Entries F
    entry : Key → Value F → Entries F → Entries F

  -- genArray_t
  pub data Values (F : Type 0) : Type 0 where
    no_values : Values F
    value : Value F → Values F → Values F

-- Json_type_t; `D` is the double of C.
mutual
  pub data Json (D : Type 0) : Type 0 where
    json_object : Members D → Json D
    json_array : Elements D → Json D
    json_string : List ℕ → Json D
    json_integer : ℤ → Json D
    json_real : D → Json D
    json_true json_false json_null : Json D

  pub data Members (D : Type 0) : Type 0 where
    no_members : Members D
    member : Key → Json D → Members D → Members D

  pub data Elements (D : Type 0) : Type 0 where
    no_elements : Elements D
    element : Json D → Elements D → Elements D

unfoldable pub to_entries : {F : Type 0} → List (Key × Value F) → Entries F
to_entries [] = no_entries
to_entries (e ∷ es) = entry e.0 e.1 (to_entries es)

unfoldable pub to_values : {F : Type 0} → List (Value F) → Values F
to_values [] = no_values
to_values (v ∷ vs) = value v (to_values vs)

unfoldable pub to_members : {D : Type 0} → List (Key × Json D) → Members D
to_members [] = no_members
to_members (m ∷ ms) = member m.0 m.1 (to_members ms)

unfoldable pub is_zero : ℤ → Bool
is_zero (pos n) = n == 0
is_zero (negsuc n) = false

-- `long_long` is JSON__INTEGER_IS_LONG_LONG; Json_object_set_new gives `none` where its status is not 0.
pub record JsonLib (F D : Type 0) : Type 0 where
  pub long_long : Bool
  pub to_double : F → D
  pub to_float : D → F
  pub object_set_new : List (Key × Json D) → Key → Json D → Option (List (Key × Json D))

-- The status of an element in jsonUnpackDict and jsonUnpackArray, `none` where it is 0.
unfoldable pub status_of : {A : Type 0} → Result A → Option Err
status_of (ok a) = none
status_of (err e) = some e
status_of fault = none

-- The end of both: what was collected is cleared where the status is an error.
unfoldable pub with_status : {A : Type 0} → Option Err → A → Result A
with_status none a = ok a
with_status (some e) a = err e

unfoldable pub set_if_ok :
    {F : Type 0} → List (Key × Value F) → Key → Result (Value F) → List (Key × Value F)
unfolding set_entry
set_if_ok es k (ok v) = set_entry es k v
set_if_ok es k (err e) = es
set_if_ok es k fault = es

unfoldable pub add_if_ok : {F : Type 0} → List (Value F) → Result (Value F) → List (Value F)
add_if_ok vs (ok v) = vs ++ v ∷ []
add_if_ok vs (err e) = vs
add_if_ok vs fault = vs

module _ {F D : Type 0} (lib : JsonLib F D) where
  unfoldable pub object_set : List (Key × Json D) → Key → Json D → Result (List (Key × Json D))
  object_set obj k j = elim (lib.object_set_new obj k j) [
    | none ↦ err (code ooi_json_obj_set_err)
    | some obj' ↦ ok obj'
  ]

  -- A rodsLong_t goes through an int where the integers of the library are not long long.
  unfoldable pub packed_long : ℤ → ℤ
  unfolding to_int
  packed_long n = if lib.long_long then n else to_int n

  unfoldable mutual
    unfolding object_set packed_long is_zero to_members

    -- The branches of jsonPackDictionary on type_PI.
    pub json_pack_value : Value F → Result (Json D)
    json_pack_value (str_ms_t s) = ok (json_string s)
    json_pack_value (int_ms_t n) = ok (json_integer n)
    json_pack_value (float_ms_t x) = ok (json_real (lib.to_double x))
    json_pack_value (double_ms_t n) = ok (json_integer (packed_long n))
    json_pack_value (bool_ms_t n) = ok (if is_zero n then json_false else json_true)
    json_pack_value (dictionary_ms_t es) =
        json_pack_entries es [] >>= λ obj. ok (json_object (to_members obj))
    json_pack_value (gen_array_ms_t vs) = err (code ooi_dict_type_not_supported)
    json_pack_value (other_ms_t type_pi) = err (code ooi_dict_type_not_supported)

    -- The loop of jsonPackDictionary.
    pub json_pack_entries : Entries F → List (Key × Json D) → Result (List (Key × Json D))
    json_pack_entries no_entries obj = ok obj
    json_pack_entries (entry k v es) obj =
        json_pack_value v >>= λ j. object_set obj k j >>= λ obj'. json_pack_entries es obj'

  -- jsonPackDictionary; `none` is a null pointer.
  unfoldable pub json_pack_dictionary : Option (Entries F) → Result (Json D)
  unfolding json_pack_entries to_members
  json_pack_dictionary none = err (code user_null_input_err)
  json_pack_dictionary (some es) =
      json_pack_entries es [] >>= λ obj. ok (json_object (to_members obj))

  unfoldable mutual
    unfolding to_int to_entries to_values status_of with_status set_if_ok add_if_ok

    -- The branches of jsonUnpackDict and jsonUnpackArray on the type of an element.
    pub json_unpack_value : Json D → Result (Value F)
    json_unpack_value (json_object ms) =
        json_unpack_dict ms [] none >>= λ es. ok (dictionary_ms_t (to_entries es))
    json_unpack_value (json_array xs) =
        json_unpack_array xs [] none >>= λ vs. ok (gen_array_ms_t (to_values vs))
    json_unpack_value (json_string s) = ok (str_ms_t s)
    json_unpack_value (json_integer n) = ok (int_ms_t (to_int n))
    json_unpack_value (json_real x) = ok (float_ms_t (lib.to_float x))
    json_unpack_value json_true = ok (bool_ms_t (pos 1))
    json_unpack_value json_false = ok (bool_ms_t (pos 0))
    json_unpack_value json_null = err (code ooi_json_type_err)

    -- The loop of jsonUnpackDict, with the entries and the status so far.
    pub json_unpack_dict :
        Members D → List (Key × Value F) → Option Err → Result (List (Key × Value F))
    json_unpack_dict no_members es status = with_status status es
    json_unpack_dict (member k j ms) es status =
        let v = json_unpack_value j in json_unpack_dict ms (set_if_ok es k v) (status_of v)

    -- The loop of jsonUnpackArray.
    pub json_unpack_array : Elements D → List (Value F) → Option Err → Result (List (Value F))
    json_unpack_array no_elements vs status = with_status status vs
    json_unpack_array (element j xs) vs status =
        let v = json_unpack_value j in json_unpack_array xs (add_if_ok vs v) (status_of v)

  -- jsonUnpackOoiRespStr
  unfoldable pub json_unpack_ooi_resp_str : Json D → Result (List ℕ)
  json_unpack_ooi_resp_str (json_string s) = ok s
  json_unpack_ooi_resp_str json_null = ok []
  json_unpack_ooi_resp_str _ = err (code ooi_json_type_err)

  -- jsonUnpackOoiRespInt
  unfoldable pub json_unpack_ooi_resp_int : Json D → Result ℤ
  unfolding to_int
  json_unpack_ooi_resp_int (json_integer n) = ok (to_int n)
  json_unpack_ooi_resp_int _ = err (code ooi_json_type_err)

  -- jsonUnpackOoiRespFloat
  unfoldable pub json_unpack_ooi_resp_float : Json D → Result F
  json_unpack_ooi_resp_float (json_real x) = ok (lib.to_float x)
  json_unpack_ooi_resp_float _ = err (code ooi_json_type_err)

  -- jsonUnpackOoiRespBool
  unfoldable pub json_unpack_ooi_resp_bool : Json D → Result ℤ
  json_unpack_ooi_resp_bool json_true = ok (pos 1)
  json_unpack_ooi_resp_bool json_false = ok (pos 0)
  json_unpack_ooi_resp_bool _ = err (code ooi_json_type_err)

  -- jsonUnpackOoiRespDict
  unfoldable pub json_unpack_ooi_resp_dict : Json D → Result (List (Key × Value F))
  unfolding json_unpack_dict
  json_unpack_ooi_resp_dict (json_object ms) = json_unpack_dict ms [] none
  json_unpack_ooi_resp_dict _ = err (code ooi_json_type_err)

  -- jsonUnpackOoiRespArray
  unfoldable pub json_unpack_ooi_resp_array : Json D → Result (List (Value F))
  unfolding json_unpack_array
  json_unpack_ooi_resp_array (json_array xs) = json_unpack_array xs [] none
  json_unpack_ooi_resp_array _ = err (code ooi_json_type_err)

-- ===== src/Tests/Service.antt =====
-- A service whose answers are texts with one code, read by a library of the kind of Tests.Dict.
use irods_netcdf.Base.{
  ℕ, ◌≡◌, refl, Bool, true, false, Option, none, some, List, [], ◌∷◌, ◌++◌, ℤ, pos, codes,
  strcmp_eq, ◌==◌, if◌then◌else◌,
}
use irods_netcdf.Status.{Result, ok, err, fault, code_minus, ooi_curl_easy_perform_err}
use irods_netcdf.Close.{local_host}
use irods_netcdf.Dict.Entries.{Key}
use irods_netcdf.Dict.Json.{
  Value, int_ms_t, str_ms_t, no_entries, entry, Json, json_object, json_integer, Members,
  no_members, member, JsonLib,
}
use irods_netcdf.Dict.Service.{
  OutType, ooi_int_type, ooi_str_type, ServReqInp, Callback, ServiceLib, ooi_gen_serv_req_func,
  rs_ooi_gen_serv_req,
}

abbrev json : JsonLib ℕ ℕ
json = record {
  long_long = true;
  to_double = λ x. x;
  to_float = λ x. x;
  object_set_new = λ obj k j. some (obj ++ (k, j) ∷ []);
}

get : Members ℕ → Key → Option (Json ℕ)
unfolding strcmp_eq
get no_members k = none
get (member k' j ms) k = elim (strcmp_eq k k') [ true ↦ some j | false ↦ get ms k ]

get_in : Json ℕ → Key → Option (Json ℕ)
unfolding get
get_in (json_object ms) k = get ms k
get_in _ k = none

-- The answer 7 to every request, or an error of the gateway.
loads : Bool → List ℕ → Option (Json ℕ)
loads true buffer = some (
    json_object (
      member (codes "data")
        (json_object (member (codes "GatewayResponse") (json_integer (pos 7)) no_members))
        no_members))
loads false buffer = some (
    json_object (
      member (codes "data")
        (json_object (member (codes "GatewayError") (json_integer (pos 7)) no_members)) no_members))

-- curl fails with 23 where the callback does not take all bytes.
status_of_write : Result ℕ → Option ℤ
status_of_write (ok n) = if n == 4 then none else some (pos 23)
status_of_write _ = some (pos 23)

perform : List ℕ → Option (List ℕ) → Callback ℕ → Option (Value ℕ) → Option ℤ × Option (Value ℕ)
unfolding status_of_write
perform url post write out =
    let (taken, out') = write (codes "text") 1 4 out in (status_of_write taken, out')

service : Bool → ServiceLib ℕ ℕ
unfolding get_in loads perform
service answers = record {
  json = json;
  json_pack = λ name opr obj. some obj;
  json_dumps = λ obj. some (codes "{}");
  json_loads = loads answers;
  json_object_get = get_in;
  curl_easy_init = true;
  resc_vault_path = λ name. some (codes "http://localhost:5000");
  perform = perform;
}

abbrev request : OutType → ServReqInp ℕ
request t = record {
  serv_name = codes "s";
  serv_opr = codes "o";
  out_type = t;
  irods_resc_name = codes "r";
  params = entry (codes "k") (int_ms_t (pos 1)) no_entries;
}

seven_answered :
    rs_ooi_gen_serv_req
      (service true)
      1088
      (λ name. some local_host)
      (λ conn. none)
      (λ conn inp. fault)
      (request ooi_int_type)
    ≡ ok (some (int_ms_t (pos 7)))
unfolding rs_ooi_gen_serv_req service strcmp_eq
seven_answered = refl

-- An answer of another type, and an error of the gateway, are errors of curl; the text that the callback kept is
-- not given.
not_a_text :
    rs_ooi_gen_serv_req
      (service true)
      1088
      (λ name. some local_host)
      (λ conn. none)
      (λ conn inp. fault)
      (request ooi_str_type)
    ≡ err (code_minus ooi_curl_easy_perform_err (pos 23))
unfolding rs_ooi_gen_serv_req service strcmp_eq
not_a_text = refl

gateway_text_kept :
    (ooi_gen_serv_req_func (service false) ooi_int_type (codes "text") 1 4 none).1
    ≡ some (str_ms_t (codes "text"))
unfolding ooi_gen_serv_req_func service strcmp_eq
gateway_text_kept = refl

gateway_error_lost :
    rs_ooi_gen_serv_req
      (service false)
      1088
      (λ name. some local_host)
      (λ conn. none)
      (λ conn inp. fault)
      (request ooi_int_type)
    ≡ err (code_minus ooi_curl_easy_perform_err (pos 23))
unfolding rs_ooi_gen_serv_req service strcmp_eq
gateway_error_lost = refl

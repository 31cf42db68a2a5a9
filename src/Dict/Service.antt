-- ===== src/Dict/Service.antt =====
-- Requests to OOI services: jsonPackOoiServReq and jsonPackOoiServReqForPost (api/lib/ooiCi.cpp), and
-- rsOoiGenServReq with its callback (api/src/rsOoiGenServReq.cpp). The curl library, the catalogue and the
-- connections are parameters.
use irods_netcdf.Base.{
  ℕ, ◌*◌, ◌-◌, Bool, Option, none, some, List, ◌++◌, ℤ, codes, take, if◌then◌else◌,
}
use irods_netcdf.Status.{
  Result, ok, err, fault, Code, code, code_minus, foreign, ◌>>=◌, user_null_input_err,
  sys_invalid_input_param, user_invalid_resc_input, ooi_curl_easy_init_err,
  ooi_curl_easy_perform_err, ooi_json_type_err, ooi_json_pack_err, ooi_json_dump_err,
  ooi_json_load_err, ooi_json_get_err,
}
use irods_netcdf.Close.{Host, no_host, local_host, remote_host}
use irods_netcdf.Dict.Entries.{Key}
use irods_netcdf.Dict.Json.{
  Value, str_ms_t, int_ms_t, float_ms_t, bool_ms_t, dictionary_ms_t, gen_array_ms_t, Entries,
  no_entries, entry, Json, to_entries, to_values, JsonLib, json_pack_dictionary,
  json_unpack_ooi_resp_str, json_unpack_ooi_resp_int, json_unpack_ooi_resp_float,
  json_unpack_ooi_resp_bool, json_unpack_ooi_resp_dict, json_unpack_ooi_resp_array,
}

-- outType
pub data OutType : Type 0 where
  ooi_dict_type ooi_array_type ooi_str_type ooi_int_type ooi_float_type ooi_bool_type : OutType
  other_type : ℤ → OutType

-- ooiGenServReqInp_t
pub record ServReqInp (F : Type 0) : Type 0 where
  pub serv_name : List ℕ
  pub serv_opr : List ℕ
  pub out_type : OutType
  pub irods_resc_name : List ℕ
  pub params : Entries F

-- What the callback of curl is given: the bytes with size and nmemb, and ooiGenServReqOut so far, which is
-- `none` for a null pointer. It gives the number that it returns, an error cast to a size_t as `err`.
abbrev pub Callback : Type 0 → Type 0
Callback F = List ℕ → ℕ → ℕ → Option (Value F) → Result ℕ × Option (Value F)

-- json_pack puts the name of the service, of its operation and the parameters into the request;
-- `perform` is curl_easy_perform on a URL, with the text to post if there is one.
pub record ServiceLib (F D : Type 0) : Type 0 where
  pub json : JsonLib F D
  pub json_pack : List ℕ → List ℕ → Json D → Option (Json D)
  pub json_dumps : Json D → Option (List ℕ)
  pub json_loads : List ℕ → Option (Json D)
  pub json_object_get : Json D → Key → Option (Json D)
  pub curl_easy_init : Bool
  pub resc_vault_path : List ℕ → Option (List ℕ)
  pub perform :
      List ℕ → Option (List ℕ) → Callback F → Option (Value F) → Option ℤ × Option (Value F)

unfoldable pub or_code : {A : Type 0} → Code → Option A → Result A
or_code c none = err (code c)
or_code c (some a) = ok a

module _ {F D : Type 0} (lib : ServiceLib F D) where
  -- jsonPackOoiServReq; a null pointer is `none`.
  unfoldable pub json_pack_ooi_serv_req :
      Option (List ℕ) → Option (List ℕ) → Option (Entries F) → Result (List ℕ)
  unfolding json_pack_dictionary or_code
  json_pack_ooi_serv_req (some serv_name) (some serv_opr) (some params) =
      json_pack_dictionary lib.json (some params) >>= λ obj.
      or_code ooi_json_pack_err (lib.json_pack serv_name serv_opr obj) >>= λ req.
      or_code ooi_json_dump_err (lib.json_dumps req)
  json_pack_ooi_serv_req _ _ _ = err (code user_null_input_err)

  -- jsonPackOoiServReqForPost: the buffer has 20 bytes more than the text, for the 8 of the prefix.
  unfoldable pub json_pack_ooi_serv_req_for_post :
      Option (List ℕ) → Option (List ℕ) → Option (Entries F) → Result (List ℕ)
  unfolding json_pack_ooi_serv_req
  json_pack_ooi_serv_req_for_post serv_name serv_opr params =
      json_pack_ooi_serv_req serv_name serv_opr params >>= λ s. ok (codes "payload=" ++ s)

  unfoldable pub unpack_as : OutType → Json D → Result (Value F)
  unfolding json_unpack_ooi_resp_str json_unpack_ooi_resp_int json_unpack_ooi_resp_float
      json_unpack_ooi_resp_bool json_unpack_ooi_resp_dict json_unpack_ooi_resp_array to_entries
      to_values
  unpack_as ooi_str_type j = json_unpack_ooi_resp_str lib.json j >>= λ s. ok (str_ms_t s)
  unpack_as ooi_dict_type j =
      json_unpack_ooi_resp_dict lib.json j >>= λ es. ok (dictionary_ms_t (to_entries es))
  unpack_as ooi_array_type j =
      json_unpack_ooi_resp_array lib.json j >>= λ vs. ok (gen_array_ms_t (to_values vs))
  unpack_as ooi_int_type j = json_unpack_ooi_resp_int lib.json j >>= λ n. ok (int_ms_t n)
  unpack_as ooi_float_type j = json_unpack_ooi_resp_float lib.json j >>= λ x. ok (float_ms_t x)
  unpack_as ooi_bool_type j = json_unpack_ooi_resp_bool lib.json j >>= λ n. ok (bool_ms_t n)
  unpack_as (other_type n) j = err (code ooi_json_type_err)

  -- The end of the callback: an error of the unpacking is returned as 0 bytes.
  unfoldable pub returned : ℕ → Option (Value F) → Result (Value F) → Result ℕ × Option (Value F)
  returned size out (ok v) = (ok size, some v)
  returned size out (err e) = (ok 0, out)
  returned size out fault = (fault, out)

  -- No response: where there is an error of the gateway, the whole text is kept.
  unfoldable pub gateway_error :
      List ℕ → Option (Json D) → Option (Value F) → Result ℕ × Option (Value F)
  gateway_error buffer none out = (err (code ooi_json_get_err), out)
  gateway_error buffer (some e) out = (err (code ooi_json_get_err), some (str_ms_t buffer))

  unfoldable pub on_response :
      OutType
      → List ℕ
      → ℕ
      → Json D
      → Option (Json D)
      → Option (Value F)
      → Result ℕ × Option (Value F)
  unfolding returned gateway_error unpack_as
  on_response out_type buffer size data_obj (some response) out =
      returned size out (unpack_as out_type response)
  on_response out_type buffer size data_obj none out =
      gateway_error buffer (lib.json_object_get data_obj (codes "GatewayError")) out

  unfoldable pub on_data :
      OutType → List ℕ → ℕ → Option (Json D) → Option (Value F) → Result ℕ × Option (Value F)
  unfolding on_response
  on_data out_type buffer size none out = (err (code ooi_json_get_err), out)
  on_data out_type buffer size (some data_obj) out =
      on_response out_type buffer size data_obj
        (lib.json_object_get data_obj (codes "GatewayResponse")) out

  unfoldable pub on_root :
      OutType → List ℕ → ℕ → Option (Json D) → Option (Value F) → Result ℕ × Option (Value F)
  unfolding on_data
  on_root out_type buffer size none out = (err (code ooi_json_load_err), out)
  on_root out_type buffer size (some root) out =
      on_data out_type buffer size (lib.json_object_get root (codes "data")) out

  -- ooiGenServReqFunc: every part of the answer is taken for a whole document.
  unfoldable pub ooi_gen_serv_req_func : OutType → Callback F
  unfolding on_root
  ooi_gen_serv_req_func out_type buffer size nmemb out =
      on_root out_type buffer (nmemb * size) (lib.json_loads buffer) out

  -- Nothing is posted without parameters.
  unfoldable pub post_text : ServReqInp F → Result (Option (List ℕ))
  unfolding json_pack_ooi_serv_req_for_post
  post_text inp = elim inp.params [
    | no_entries ↦ ok none
    | entry k v es ↦
        json_pack_ooi_serv_req_for_post (some inp.serv_name) (some inp.serv_opr) (some inp.params)
        >>= λ s. ok (some s)
  ]

  unfoldable pub performed : Option ℤ × Option (Value F) → Result (Option (Value F))
  performed (some res, out) = err (code_minus ooi_curl_easy_perform_err res)
  performed (none, out) = ok out

  -- MAX_NAME_LEN is the size of the buffer of the URL.
  module _ (max_name_len : ℕ) where
    unfoldable pub my_url : List ℕ → ServReqInp F → List ℕ
    my_url vault inp =
        take (max_name_len - 1)
          (vault ++ codes "/ion-service/" ++ inp.serv_name ++ codes "/" ++ inp.serv_opr)

    -- _rsOoiGenServReq
    unfoldable pub local_ooi_gen_serv_req : Option (ServReqInp F) → Result (Option (Value F))
    unfolding my_url post_text performed ooi_gen_serv_req_func
    local_ooi_gen_serv_req none = err (code user_null_input_err)
    local_ooi_gen_serv_req (some inp) =
        if lib.curl_easy_init
        then (or_code user_invalid_resc_input (lib.resc_vault_path inp.irods_resc_name) >>= λ vault.
            post_text inp >>= λ post.
            performed
              (lib.perform (my_url vault inp) post (ooi_gen_serv_req_func inp.out_type) none))
        else err (code ooi_curl_easy_init_err)

    unfoldable pub remote_ooi_gen_serv_req :
        (ℕ → Option ℤ)
        → (ℕ → ServReqInp F → Result (Option (Value F)))
        → ℕ
        → ServReqInp F
        → Result (Option (Value F))
    remote_ooi_gen_serv_req svr_to_svr_connect rc_ooi_gen_serv_req conn inp =
        elim (svr_to_svr_connect conn) [
          | some status ↦ err (foreign status)
          | none ↦ rc_ooi_gen_serv_req conn inp
        ]

    -- rsOoiGenServReq, where `none` is a resource without a host.
    unfoldable pub rs_ooi_gen_serv_req :
        (List ℕ → Option Host)
        → (ℕ → Option ℤ)
        → (ℕ → ServReqInp F → Result (Option (Value F)))
        → ServReqInp F
        → Result (Option (Value F))
    unfolding local_ooi_gen_serv_req remote_ooi_gen_serv_req
    rs_ooi_gen_serv_req host_of_resc svr_to_svr_connect rc_ooi_gen_serv_req inp =
        elim (host_of_resc inp.irods_resc_name) [
          | none ↦ err (code sys_invalid_input_param)
          | some (no_host status) ↦ err (foreign status)
          | some local_host ↦ local_ooi_gen_serv_req (some inp)
          | some (remote_host conn) ↦
              remote_ooi_gen_serv_req svr_to_svr_connect rc_ooi_gen_serv_req conn inp
        ]

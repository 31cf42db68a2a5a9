-- ===== src/Status.antt =====
-- The int status that every function of the program returns. A status below zero is an error: one
-- of the codes of iRODS, or a code with a netCDF status added or subtracted. A fault is what the
-- source leaves undefined: an access through a null pointer or outside an array.
use irods_netcdf.Base.{ap, ◌≡◌, refl, Option, none, some, ℤ, ◌⊎◌, inl, inr}

pub data Code : Type 0 where
  user_null_input_err user_input_format_err user_strlen_toolong user_input_path_err : Code
  user_option_input_err user_input_option_err user_param_type_err sys_internal_null_input_err : Code
  sys_file_desc_out_of_range bad_input_desc_index sys_invalid_input_param : Code
  cat_no_rows_found cat_insufficient_privilege_level cat_success_but_with_no_info : Code
  catalog_already_has_item_by_that_name unmatched_key_or_index : Code
  netcdf_open_err netcdf_create_err netcdf_close_err netcdf_inq_err netcdf_inq_id_err : Code
  netcdf_inq_format_err netcdf_inq_dim_err netcdf_inq_att_err netcdf_inq_vars_err : Code
  netcdf_get_vars_err netcdf_get_att_err netcdf_put_att_err netcdf_put_vars_err : Code
  netcdf_def_dim_err netcdf_def_var_err netcdf_invalid_data_type : Code
  netcdf_dim_mismatch_err netcdf_var_count_out_of_range netcdf_unmatched_name_err : Code
  netcdf_agg_ele_inx_out_of_range netcdf_agg_ele_file_not_opened netcdf_agg_info_file_err : Code
  netcdf_agg_ele_file_no_time_dim netcdf_no_unlimited_dim netcdf_vars_data_too_big
        netcdf_invalid_param_type :
      Code
  user_invalid_resc_input ooi_curl_easy_init_err ooi_curl_easy_perform_err : Code
  ooi_revid_not_found : Code
  ooi_dict_type_not_supported ooi_json_obj_set_err ooi_json_type_err : Code
  ooi_json_pack_err ooi_json_dump_err ooi_json_load_err ooi_json_get_err : Code

pub data Err : Type 0 where
  code : Code → Err
  -- `CODE + status` and `CODE - status` for the status of a netCDF call
  code_plus code_minus : Code → ℤ → Err
  -- the status of a call out of the program, passed on as it came
  foreign : ℤ → Err

pub data Result {ℓ} (A : Type ℓ) : Type ℓ where
  ok : A → Result A
  err : Err → Result A
  fault : Result A

infixl 5 ◌>>=◌ ◌>>◌
abbrev pub ◌>>=◌ {ℓ κ} : {A : Type ℓ} {B : Type κ} → Result A → (A → Result B) → Result B
ok a >>= f = f a
err e >>= f = err e
fault >>= f = fault

abbrev pub ◌>>◌ {ℓ κ} : {A : Type ℓ} {B : Type κ} → Result A → Result B → Result B
m >> k = m >>= λ _. k

-- The status of a netCDF call, which is none where it succeeds, added to a code.
abbrev pub or_fail {ℓ} : {A : Type ℓ} → Code → ℤ ⊎ A → Result A
or_fail c (inl status) = err (code_plus c status)
or_fail c (inr a) = ok a

-- An access that is undefined where there is nothing.
abbrev pub deref {ℓ} : {A : Type ℓ} → Option A → Result A
deref none = fault
deref (some a) = ok a

pub Result-cases {ℓ} :
    {A : Type ℓ} (r : Result A) → ((a : A) × (r ≡ ok a)) ⊎ (((e : Err) × (r ≡ err e)) ⊎ (r ≡ fault))
Result-cases (ok a) = inl (a, refl)
Result-cases (err e) = inr (inl (e, refl))
Result-cases fault = inr (inr refl)

value_or {ℓ} : {A : Type ℓ} → A → Result A → A
value_or d (ok a) = a
value_or d (err e) = d
value_or d fault = d

pub ok-injective {ℓ} : {A : Type ℓ} {a b : A} → ok a ≡ ok b → a ≡ b
unfolding value_or
ok-injective {a = a} e = ap (value_or a) e

-- What a chain that succeeds was made of.
pub >>=_ok {ℓ κ} :
    {A : Type ℓ} {B : Type κ} (r : Result A) (next : A → Result B) {out : B}
    → (r >>= next) ≡ ok out
    → (a : A) × (r ≡ ok a) × (next a ≡ ok out)
>>=_ok (ok a) next h = (a, refl, h)
>>=_ok (err e) next h = cc
>>=_ok fault next h = cc

pub deref_ok {ℓ} : {A : Type ℓ} (o : Option A) {a : A} → deref o ≡ ok a → o ≡ some a
deref_ok none h = cc
deref_ok (some x) h = ap some (ok-injective h)

pub >>=_cong {ℓ κ} :
    {A : Type ℓ} {B : Type κ} (r : Result A) {f g : A → Result B}
    → ((a : A) → f a ≡ g a)
    → (r >>= f) ≡ (r >>= g)
>>=_cong (ok a) h = h a
>>=_cong (err e) h = refl
>>=_cong fault h = refl

pub >>=_assoc {ℓ κ ι} :
    {A : Type ℓ} {B : Type κ} {C : Type ι} (r : Result A) (f : A → Result B) (g : B → Result C)
    → (r >>= λ a. f a >>= g) ≡ (r >>= f >>= g)
>>=_assoc (ok a) f g = refl
>>=_assoc (err e) f g = refl
>>=_assoc fault f g = refl

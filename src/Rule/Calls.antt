-- ===== src/Rule/Calls.antt =====
-- The microservices of microservices/netcdf/src that open, create and close: what is asked of the server for the
-- parameters of a rule. The calls of the server are parameters.
use irods_netcdf.Base.{ℕ, ◌-◌, Option, none, some, List, ℤ, pos, negsuc, take}
use irods_netcdf.Status.{
  Result, ok, err, code, foreign, ◌>>=◌, deref, sys_internal_null_input_err, user_param_type_err,
}

-- ncOpenInp_t, with its condInput in K.
pub record OpenCall (K : Type 0) : Type 0 where
  pub obj_path : List ℕ
  pub mode : ℤ
  pub root_ncid : ℤ
  pub cond_input : K

-- ncCloseInp_t
pub record CloseCall (K : Type 0) : Type 0 where
  pub ncid : ℤ
  pub cond_input : K

-- msParam_t with the types that these microservices know.
pub data CallParam (K : Type 0) : Type 0 where
  str_ms_t : List ℕ → CallParam K
  int_ms_t : ℤ → CallParam K
  nc_open_inp_ms_t : OpenCall K → CallParam K
  nc_close_inp_ms_t : CloseCall K → CallParam K
  other_ms_t : List ℕ → CallParam K

unfoldable pub not_null : {A : Type 0} → Option A → Result A
not_null none = err (code sys_internal_null_input_err)
not_null (some a) = ok a

-- `no_cond` is a condInput that is zeroed; MAX_NAME_LEN is the size of the buffer of a path.
module _ {K : Type 0} (no_cond : K) (max_name_len : ℕ)
    (parse_msp_for_pos_int : CallParam K → ℤ) where
  unfoldable pub path_call : List ℕ → OpenCall K
  path_call path = record {
    obj_path = take (max_name_len - 1) path;
    mode = pos 0;
    root_ncid = pos 0;
    cond_input = no_cond;
  }

  unfoldable pub open_call_of : CallParam K → Result (OpenCall K)
  unfolding path_call
  open_call_of (str_ms_t path) = ok (path_call path)
  open_call_of (nc_open_inp_ms_t inp) = ok inp
  open_call_of _ = err (code user_param_type_err)

  -- A mode below 0 is the status of parseMspForPosInt.
  unfoldable pub set_mode : ℤ → OpenCall K → Result (OpenCall K)
  set_mode (pos n) inp = ok (record inp { mode = pos n })
  set_mode (negsuc n) inp = err (foreign (negsuc n))

  unfoldable pub with_mode : Option (CallParam K) → OpenCall K → Result (OpenCall K)
  unfolding set_mode
  with_mode none inp = ok inp
  with_mode (some p) inp = set_mode (parse_msp_for_pos_int p) inp

  -- msiNcOpen, and msiNcCreate, which makes the other call.
  unfoldable pub open_or_create :
      (OpenCall K → Result ℤ)
      → Option (Unit {0})
      → Option (CallParam K)
      → Option (CallParam K)
      → Result ℤ
  unfolding not_null open_call_of with_mode
  open_or_create api rei inp_param1 inp_param2 = not_null rei >>= λ u. not_null inp_param1 >>= λ p.
      open_call_of p >>= λ inp. with_mode inp_param2 inp >>= λ inp'. api inp'

  unfoldable pub msi_nc_open :
      (OpenCall K → Result ℤ)
      → Option (Unit {0})
      → Option (CallParam K)
      → Option (CallParam K)
      → Result ℤ
  unfolding open_or_create
  msi_nc_open = open_or_create

  unfoldable pub msi_nc_create :
      (OpenCall K → Result ℤ)
      → Option (Unit {0})
      → Option (CallParam K)
      → Option (CallParam K)
      → Result ℤ
  unfolding open_or_create
  msi_nc_create = open_or_create

  unfoldable pub group_call : ℤ → CallParam K → Result (OpenCall K)
  unfolding path_call
  group_call root (str_ms_t name) = ok (record (path_call name) { root_ncid = root })
  group_call root _ = err (code user_param_type_err)

  -- msiNcOpenGroup: the parameter of the name is read without a test for a null pointer, and the id of the root
  -- is not tested.
  unfoldable pub msi_nc_open_group :
      (OpenCall K → Result ℤ)
      → Option (Unit {0})
      → Option (CallParam K)
      → Option (CallParam K)
      → Result ℤ
  unfolding not_null group_call
  msi_nc_open_group api rei root_ncid_param full_grp_name_param = not_null rei >>= λ u.
      not_null root_ncid_param >>= λ p. deref full_grp_name_param >>= λ name.
      group_call (parse_msp_for_pos_int p) name >>= λ inp. api inp

  unfoldable pub close_call_of : CallParam K → Result (CloseCall K)
  close_call_of (int_ms_t ncid) = ok (record { ncid = ncid; cond_input = no_cond })
  close_call_of (nc_close_inp_ms_t inp) = ok inp
  close_call_of _ = err (code user_param_type_err)

  unfoldable pub msi_nc_close :
      (CloseCall K → Result (Unit {0}))
      → Option (Unit {0})
      → Option (CallParam K)
      → Result (Unit {0})
  unfolding not_null close_call_of
  msi_nc_close api rei inp_param1 =
      not_null rei >>= λ u. not_null inp_param1 >>= λ p. close_call_of p >>= λ inp. api inp

-- ===== src/Rule/Inquire.antt =====
-- The microservices of microservices/netcdf/src that inquire: what is asked of the server for the parameters of a
-- rule, with two functions of microservices/netcdf/include/netcdfParseUtilities.hpp. The calls of the server and
-- atoi on a text with a sign are parameters.
use irods_netcdf.Base.{
  ℕ, ◌-◌, ◌==◌, Bool, false, ◌||◌, Option, none, some, List, [], ℤ, pos, negsuc, take,
  if◌then◌else◌,
}
use irods_netcdf.Status.{
  Result, ok, err, code, ◌>>=◌, sys_internal_null_input_err, user_param_type_err,
  netcdf_invalid_param_type,
}

-- ncInqIdInp_t, with its condInput in K.
pub record InqIdCall (K : Type 0) : Type 0 where
  pub param_type : ℤ
  pub ncid : ℤ
  pub my_id : ℤ
  pub name : List ℕ
  pub cond_input : K

-- msParam_t with the types that these microservices know.
pub data InqParam (K : Type 0) : Type 0 where
  str_ms_t : List ℕ → InqParam K
  int_ms_t : ℤ → InqParam K
  nc_inq_id_inp_ms_t : InqIdCall K → InqParam K
  other_ms_t : List ℕ → InqParam K

unfoldable pub not_null : {A : Type 0} → Option A → Result A
not_null none = err (code sys_internal_null_input_err)
not_null (some a) = ok a

-- NC_VAR_T and NC_DIM_T
unfoldable pub var_or_dim : ℤ → Bool
var_or_dim (pos n) = (n == 0) || (n == 1)
var_or_dim (negsuc n) = false

-- `no_cond` is a condInput that is zeroed; MAX_NAME_LEN is the size of the buffer of a name.
module _ {K : Type 0} (no_cond : K) (max_name_len : ℕ) (atoi : List ℕ → ℤ)
    (parse_msp_for_pos_int : InqParam K → ℤ) where
  abbrev zero_call : InqIdCall K
  zero_call = record {
    param_type = pos 0;
    ncid = pos 0;
    my_id = pos 0;
    name = [];
    cond_input = no_cond;
  }

  unfoldable pub parse_msp_for_nc_inq_id_inp_name : InqParam K → Result (InqIdCall K)
  parse_msp_for_nc_inq_id_inp_name (str_ms_t s) =
      ok (record zero_call { name = take (max_name_len - 1) s })
  parse_msp_for_nc_inq_id_inp_name (nc_inq_id_inp_ms_t inp) = ok inp
  parse_msp_for_nc_inq_id_inp_name _ = err (code user_param_type_err)

  unfoldable pub parse_msp_for_nc_inq_id_inp_id : InqParam K → Result (InqIdCall K)
  parse_msp_for_nc_inq_id_inp_id (str_ms_t s) = ok (record zero_call { my_id = atoi s })
  parse_msp_for_nc_inq_id_inp_id (int_ms_t n) = ok (record zero_call { my_id = n })
  parse_msp_for_nc_inq_id_inp_id (nc_inq_id_inp_ms_t inp) = ok inp
  parse_msp_for_nc_inq_id_inp_id (other_ms_t s) = err (code user_param_type_err)

  unfoldable pub with_param_type : Option (InqParam K) → InqIdCall K → Result (InqIdCall K)
  unfolding var_or_dim
  with_param_type none inp = ok inp
  with_param_type (some p) inp =
      let t = parse_msp_for_pos_int p in
      if var_or_dim t
      then ok (record inp { param_type = t })
      else err (code netcdf_invalid_param_type)

  -- The id of the file is not tested.
  unfoldable pub with_ncid : Option (InqParam K) → InqIdCall K → InqIdCall K
  with_ncid none inp = inp
  with_ncid (some p) inp = record inp { ncid = parse_msp_for_pos_int p }

  module _ {Out : Type 0} where
    unfoldable pub msi_nc_inq_id :
        (InqIdCall K → Result Out)
        → Option (Unit {0})
        → Option (InqParam K)
        → Option (InqParam K)
        → Option (InqParam K)
        → Result Out
    unfolding not_null parse_msp_for_nc_inq_id_inp_name with_param_type with_ncid
    msi_nc_inq_id api rei inp_param1 inp_param2 inp_param3 = not_null rei >>= λ u.
        not_null inp_param1 >>= λ p. parse_msp_for_nc_inq_id_inp_name p >>= λ inp.
        with_param_type inp_param2 inp >>= λ inp'. api (with_ncid inp_param3 inp')

    unfoldable pub msi_nc_inq_with_id :
        (InqIdCall K → Result Out)
        → Option (Unit {0})
        → Option (InqParam K)
        → Option (InqParam K)
        → Option (InqParam K)
        → Result Out
    unfolding not_null parse_msp_for_nc_inq_id_inp_id with_param_type with_ncid
    msi_nc_inq_with_id api rei inp_param1 inp_param2 inp_param3 = not_null rei >>= λ u.
        not_null inp_param1 >>= λ p. parse_msp_for_nc_inq_id_inp_id p >>= λ inp.
        with_param_type inp_param2 inp >>= λ inp'. api (with_ncid inp_param3 inp')

    -- The request is zeroed but for the id of the file.
    unfoldable pub msi_nc_inq :
        (ℤ → Result Out) → Option (Unit {0}) → Option (InqParam K) → Result Out
    unfolding not_null
    msi_nc_inq api rei ncid_param =
        not_null rei >>= λ u. not_null ncid_param >>= λ p. api (parse_msp_for_pos_int p)

    unfoldable pub msi_nc_inq_grps :
        (ℤ → Result Out) → Option (Unit {0}) → Option (InqParam K) → Result Out
    unfolding not_null
    msi_nc_inq_grps api rei ncid_param =
        not_null rei >>= λ u. not_null ncid_param >>= λ p. api (parse_msp_for_pos_int p)

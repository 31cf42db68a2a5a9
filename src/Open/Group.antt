-- ===== src/Open/Group.antt =====
-- Opening a group of an open file: rsNcOpenGroup (api/src/rsNcOpenGroup.cpp), on the table of descriptors of
-- Close. `native` is whether NATIVE_NETCDF_CALL_KW is given.
pub mod Root
use irods_netcdf.Base.{
  ℕ, ◌==◌, ◌≡◌, ◌≢◌, refl, Bool, true, false, ◌||◌, not, Option, none, some, List, [], ℤ, pos,
  negsuc, ◌⊎◌, inl, inr, if◌then◌else◌, ltb, leb, arith, ◌<◌, ◌∙◌, ap,
}
use irods_netcdf.Status.{
  Result, ok, err, fault, Err, code, code_plus, foreign, cat_insufficient_privilege_level,
  netcdf_open_err, sys_file_desc_out_of_range, bad_input_desc_index,
}
use irods_netcdf.Close.{
  L1Desc, Table, Host, no_host, local_host, remote_host, update, OprType, nc_open_group, CloseEnv,
  Run, rs_nc_close, close_at, close_in_zone, is_group, close_on, nc_close_data_obj, is_coll,
}
use irods_netcdf.Open.{with_opr, with_l3desc}

-- nc_inq_grp_full_ncid and rcNcOpenGroup give a status or an id. `privileged` is whether the proxy user has
-- REMOTE_PRIV_USER_AUTH; `alloc_l1desc` is allocL1desc, and `alloc_for_zone` allocAndSetL1descForZoneOpr,
-- which gives the index or the status of an error.
pub record GroupEnv : Type 0 where
  pub num_l1_desc : ℕ
  pub privileged : Bool
  pub host_of : L1Desc → Host
  pub nc_inq_grp_full_ncid : ℤ → List ℕ → ℤ ⊎ ℤ
  pub rc_nc_open_group : ℕ → ℤ → List ℕ → Bool → ℤ ⊎ ℤ
  pub alloc_l1desc : Table → Result ℕ × Table
  pub alloc_for_zone : ℤ → ℕ → ℕ → Table → ℤ × Table

abbrev pub GroupRun : Type 0
GroupRun = Result ℤ × Table

-- A dataObjInfo_t of its own, which has no file path, and the id of the group.
unfoldable pub with_group : ℤ → L1Desc → L1Desc
with_group ncid d = record d { file_path = []; l3desc_inx = ncid }

-- The end of the function: my_desc is the descriptor of the root.
unfoldable pub group_opened : ℕ → ℤ → Table → GroupRun
unfolding update with_opr
group_opened root inx t = (ok inx, update root (with_opr nc_open_group) t)

-- The result of allocL1desc is used without a test.
unfoldable pub group_stored : ℕ → ℤ → Result ℕ × Table → GroupRun
unfolding update with_group group_opened
group_stored root ncid (ok inx, t) = group_opened root (pos inx) (update inx (with_group ncid) t)
group_stored root ncid (err e, t) = (fault, t)
group_stored root ncid (fault, t) = (fault, t)

unfoldable pub zone_stored : ℕ → ℤ × Table → GroupRun
unfolding group_opened
zone_stored root allocated = group_opened root allocated.0 allocated.1

unfoldable pub native_group : ℤ ⊎ ℤ → Result ℤ
native_group (inl status) = err (code_plus netcdf_open_err status)
native_group (inr ncid) = ok ncid

module _ (env : GroupEnv) where
  unfoldable pub group_found : (ℤ → Err) → ℤ ⊎ ℤ → ℕ → Table → GroupRun
  unfolding group_stored
  group_found as_err (inl status) root t = (err (as_err status), t)
  group_found as_err (inr ncid) root t = group_stored root ncid (env.alloc_l1desc t)

  unfoldable pub group_on : Host → ℕ → List ℕ → Table → GroupRun
  unfolding group_found
  group_on (no_host status) root path t = (err (foreign status), t)
  group_on local_host root path t =
      group_found (code_plus netcdf_open_err) (env.nc_inq_grp_full_ncid (t root).l3desc_inx path)
        root t
  group_on (remote_host conn) root path t =
      group_found foreign (env.rc_nc_open_group conn (t root).l3desc_inx path true) root t

  unfoldable pub zone_group : ℤ ⊎ ℤ → ℕ → ℕ → Table → GroupRun
  unfolding zone_stored
  zone_group (inl status) conn root t = (err (foreign status), t)
  zone_group (inr ncid) conn root t = zone_stored root (env.alloc_for_zone ncid root conn t)

  unfoldable pub group_in_zone : Option (ℕ × ℤ) → ℕ → List ℕ → Table → GroupRun
  unfolding zone_group group_on
  group_in_zone (some h) root path t =
      zone_group (env.rc_nc_open_group h.0 h.1 path false) h.0 root t
  group_in_zone none root path t = group_on (env.host_of (t root)) root path t

  unfoldable pub group_of : ℕ → List ℕ → Table → GroupRun
  unfolding group_in_zone
  group_of root path t =
      if ltb root 2 || leb env.num_l1_desc root
      then (err (code sys_file_desc_out_of_range), t)
      else (if (t root).inuse
          then group_in_zone (t root).remote_zone root path t
          else (err (code bad_input_desc_index), t))

  -- rsNcOpenGroup
  unfoldable pub rs_nc_open_group : Bool → ℤ → List ℕ → Table → GroupRun
  unfolding group_of native_group
  rs_nc_open_group true root_ncid path t =
      if env.privileged
      then (native_group (env.nc_inq_grp_full_ncid root_ncid path), t)
      else (err (code cat_insufficient_privilege_level), t)
  rs_nc_open_group false (pos root) path t = group_of root path t
  rs_nc_open_group false (negsuc n) path t = (err (code sys_file_desc_out_of_range), t)

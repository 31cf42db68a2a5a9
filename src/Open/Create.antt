-- ===== src/Open/Create.antt =====
-- Creating a file: rsNcCreate (api/src/rsNcCreate.cpp), on the table of descriptors of Close.
use irods_netcdf.Base.{
  ℕ, Bool, true, false, Option, none, some, List, ℤ, pos, ◌⊎◌, inl, inr, if◌then◌else◌,
}
use irods_netcdf.Status.{
  Result, ok, err, fault, Err, code, code_plus, foreign, cat_insufficient_privilege_level,
  netcdf_open_err, netcdf_create_err,
}
use irods_netcdf.Close.{L1Desc, Table, Host, no_host, local_host, remote_host, update, nc_create}
use irods_netcdf.Open.{with_opr, with_l3desc}
use irods_netcdf.Open.Group.{GroupRun}

-- `rc_nc_create` is given a connection, a path, the mode, and whether NATIVE_NETCDF_CALL_KW is given.
-- `in_special` is whether the object is in a special collection, `reg_data_obj` is svrRegDataObj, and
-- `api_nc_close` is the call of rsNcClose; `unlink` is l3Unlink.
pub record CreateEnv : Type 0 where
  pub privileged : Bool
  pub zone_of : List ℕ → Host
  pub host_of : L1Desc → Host
  pub in_special : L1Desc → Bool
  pub data_obj_create : List ℕ → Table → Result ℕ × Table
  pub create : List ℕ → ℕ → ℤ ⊎ ℤ
  pub rc_nc_create : ℕ → List ℕ → ℕ → Bool → ℤ ⊎ ℤ
  pub reg_data_obj : L1Desc → Option ℤ
  pub api_nc_close : ℕ → Table → Table
  pub unlink : L1Desc → Table → Table
  pub free_l1desc : ℕ → Table → Table
  pub alloc_for_zone : ℤ → List ℕ → ℕ → Table → ℤ × Table

unfoldable pub create_status : ℤ ⊎ ℤ → Result ℤ
create_status (inl status) = err (code_plus netcdf_open_err status)
create_status (inr ncid) = ok ncid

unfoldable pub created : ℕ → Table → GroupRun
unfolding update with_opr
created inx t = (ok (pos inx), update inx (with_opr nc_create) t)

module _ (env : CreateEnv) where
  -- Where the registration fails, the file is closed and unlinked, and the descriptor freed once more.
  unfoldable pub registered : Option ℤ → ℕ → Table → GroupRun
  unfolding created
  registered none inx t = created inx t
  registered (some status) inx t =
      let t1 = env.api_nc_close inx t in
      (err (code_plus netcdf_create_err status), env.free_l1desc inx (env.unlink (t1 inx) t1))

  unfoldable pub with_file : (ℤ → Err) → ℤ ⊎ ℤ → ℕ → Table → GroupRun
  unfolding update with_l3desc registered created
  with_file as_err (inl status) inx t = (err (as_err status), env.free_l1desc inx t)
  with_file as_err (inr ncid) inx t =
      let t1 = update inx (with_l3desc ncid) t in
      if env.in_special (t1 inx)
      then created inx t1
      else registered (env.reg_data_obj (t1 inx)) inx t1

  -- The server that has the file is not told the mode: the request is zeroed, and its mode not set.
  unfoldable pub create_on : Host → ℕ → ℕ → Table → GroupRun
  unfolding with_file
  create_on (no_host status) mode inx t = (err (foreign status), t)
  create_on local_host mode inx t =
      with_file (code_plus netcdf_create_err) (env.create (t inx).file_path mode) inx t
  create_on (remote_host conn) mode inx t =
      with_file foreign (env.rc_nc_create conn (t inx).file_path 0 true) inx t

  unfoldable pub object_created : ℕ → Result ℕ × Table → GroupRun
  unfolding create_on
  object_created mode (ok inx, t) = create_on (env.host_of (t inx)) mode inx t
  object_created mode (err e, t) = (err e, t)
  object_created mode (fault, t) = (fault, t)

  -- The index that the allocation for another zone gives is used without a test.
  unfoldable pub zone_allocated : ℤ × Table → GroupRun
  unfolding created
  zone_allocated (pos inx, t) = created inx t
  zone_allocated (_, t) = (fault, t)

  unfoldable pub zone_created : ℤ ⊎ ℤ → List ℕ → ℕ → Table → GroupRun
  unfolding zone_allocated
  zone_created (inl status) path conn t = (err (foreign status), t)
  zone_created (inr ncid) path conn t = zone_allocated (env.alloc_for_zone ncid path conn t)

  unfoldable pub create_in : Host → List ℕ → ℕ → Table → GroupRun
  unfolding object_created zone_created
  create_in (no_host status) path mode t = (err (foreign status), t)
  create_in local_host path mode t = object_created mode (env.data_obj_create path t)
  create_in (remote_host conn) path mode t =
      zone_created (env.rc_nc_create conn path mode false) path conn t

  -- rsNcCreate; `native` is whether NATIVE_NETCDF_CALL_KW is given.
  unfoldable pub rs_nc_create : Bool → List ℕ → ℕ → Table → GroupRun
  unfolding create_in create_status
  rs_nc_create true path mode t =
      if env.privileged
      then (create_status (env.create path mode), t)
      else (err (code cat_insufficient_privilege_level), t)
  rs_nc_create false path mode t = create_in (env.zone_of path) path mode t

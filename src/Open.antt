-- ===== src/Open.antt =====
-- Opening a data object: _rsNcOpenDataObj of api/lib/rcNcOpen.cpp, on the table of descriptors of Close. The
-- calls of the iRODS server, of other servers and of the netCDF library are parameters.
pub mod Balanced
pub mod Group
pub mod Create
use irods_netcdf.Base.{
  ℕ, ◌==◌, Bool, true, false, Option, none, some, List, ℤ, pos, ◌⊎◌, inl, inr, if◌then◌else◌,
}
use irods_netcdf.Status.{Result, ok, err, fault, Err, code_plus, foreign, netcdf_open_err}
use irods_netcdf.Close.{
  L1Desc, Table, Host, no_host, local_host, remote_host, update, OprType, nc_open_for_read,
  nc_open_for_write,
}

-- ncOpenInp_t: `no_staging` is whether NO_STAGING_KW is given.
pub record NcOpenInp : Type 0 where
  pub obj_path : List ℕ
  pub mode : ℕ
  pub no_staging : Bool

-- nc_open and rcNcOpen give a status or an id; rcNcOpen is told whether NATIVE_NETCDF_CALL_KW is given. An
-- allocation that fails gives an error.
pub record OpenEnv : Type 0 where
  pub zone_of : List ℕ → Host
  pub host_of : L1Desc → Host
  pub data_obj_open : List ℕ → Bool → Table → Result ℕ × Table
  pub nc_open : List ℕ → ℕ → ℤ ⊎ ℤ
  pub svr_to_svr_connect : ℕ → Option ℤ
  pub rc_nc_open : ℕ → List ℕ → ℕ → Bool → ℤ ⊎ ℤ
  pub free_l1desc : ℕ → Table → Table
  pub alloc_for_zone : ℤ → List ℕ → ℕ → Table → Result ℕ × Table

-- NC_NOWRITE
abbrev pub nc_nowrite : ℕ
nc_nowrite = 0

unfoldable pub opr_type_of : ℕ → OprType
opr_type_of mode = if mode == nc_nowrite then nc_open_for_read else nc_open_for_write

unfoldable pub with_l3desc : ℤ → L1Desc → L1Desc
with_l3desc ncid d = record d { l3desc_inx = ncid }

unfoldable pub with_opr : OprType → L1Desc → L1Desc
with_opr o d = record d { opr_type = o }

abbrev pub OpenRun : Type 0
OpenRun = Result ℕ × Table

-- The end of the function.
unfoldable pub set_opr : ℕ → ℕ → Table → OpenRun
unfolding update with_opr opr_type_of
set_opr mode inx t = (ok inx, update inx (with_opr (opr_type_of mode)) t)

module _ (env : OpenEnv) where
  -- After nc_open or rcNcOpen, where the object is of this zone.
  unfoldable pub opened_with : (ℤ → Err) → ℤ ⊎ ℤ → ℕ → ℕ → Table → OpenRun
  unfolding update with_l3desc set_opr
  opened_with as_err (inl status) mode inx t = (err (as_err status), env.free_l1desc inx t)
  opened_with as_err (inr ncid) mode inx t = set_opr mode inx (update inx (with_l3desc ncid) t)

  unfoldable pub connected : Option ℤ → ℕ → ℕ → ℕ → Table → OpenRun
  unfolding opened_with
  connected (some status) conn mode inx t = (err (foreign status), t)
  connected none conn mode inx t =
      opened_with foreign (env.rc_nc_open conn (t inx).file_path mode true) mode inx t

  unfoldable pub open_on : Host → ℕ → ℕ → Table → OpenRun
  unfolding opened_with connected
  open_on (no_host status) mode inx t = (err (foreign status), t)
  open_on local_host mode inx t =
      opened_with (code_plus netcdf_open_err) (env.nc_open (t inx).file_path mode) mode inx t
  open_on (remote_host conn) mode inx t = connected (env.svr_to_svr_connect conn) conn mode inx t

  unfoldable pub after_open : ℕ → OpenRun → OpenRun
  unfolding open_on
  after_open mode (ok inx, t) = open_on (env.host_of (t inx)) mode inx t
  after_open mode (err e, t) = (err e, t)
  after_open mode (fault, t) = (fault, t)

  -- Another zone: the status of the allocation is used without a test.
  unfoldable pub allocated : ℕ → OpenRun → OpenRun
  unfolding set_opr
  allocated mode (ok inx, t) = set_opr mode inx t
  allocated mode (err e, t) = (fault, t)
  allocated mode (fault, t) = (fault, t)

  unfoldable pub zone_opened : ℤ ⊎ ℤ → ℕ → NcOpenInp → Table → OpenRun
  unfolding allocated
  zone_opened (inl status) conn inp t = (err (foreign status), t)
  zone_opened (inr ncid) conn inp t =
      allocated inp.mode (env.alloc_for_zone ncid inp.obj_path conn t)

  unfoldable pub zone_connected : Option ℤ → ℕ → NcOpenInp → Table → OpenRun
  unfolding zone_opened
  zone_connected (some status) conn inp t = (err (foreign status), t)
  zone_connected none conn inp t =
      zone_opened (env.rc_nc_open conn inp.obj_path inp.mode false) conn inp t

  unfoldable pub open_in : Host → NcOpenInp → Table → OpenRun
  unfolding after_open zone_connected
  open_in (no_host status) inp t = (err (foreign status), t)
  open_in local_host inp t = after_open inp.mode (env.data_obj_open inp.obj_path inp.no_staging t)
  open_in (remote_host conn) inp t = zone_connected (env.svr_to_svr_connect conn) conn inp t

  -- _rsNcOpenDataObj
  unfoldable pub rs_nc_open_data_obj : NcOpenInp → Table → OpenRun
  unfolding open_in
  rs_nc_open_data_obj inp t = open_in (env.zone_of inp.obj_path) inp t

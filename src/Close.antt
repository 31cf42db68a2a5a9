-- ===== src/Close.antt =====
-- Closing what a client has open: closeAggrFiles, ncCloseColl, ncCloseDataObj and rsNcClose of
-- api/src/rsNcClose.cpp, on the table of descriptors. The table itself, the netCDF library and the calls
-- of other servers belong to other programs and are parameters.
pub mod Freed
pub mod Object
use irods_netcdf.Base.{
  ℕ, ◌==◌, Bool, true, false, Option, none, some, List, ℤ, pos, negsuc, if◌then◌else◌, ltb, leb,
  ltb_ℤ, ◌||◌,
}
use irods_netcdf.Status.{
  Result, ok, err, fault, Err, code, code_plus, foreign, netcdf_close_err,
  sys_file_desc_out_of_range, bad_input_desc_index,
}
use irods_netcdf.Inq.{NcInqOut}
use irods_netcdf.Agg.{NcAggElement}

-- openedAggInfo_t; a null pointer is `none`.
pub record OpenedAggInfo : Type 0 where
  pub agg_element_inx : ℤ
  pub obj_ncid0 : ℤ
  pub obj_ncid : ℤ
  pub nc_agg_info : Option (List NcAggElement)
  pub nc_inq_out0 : Option NcInqOut
  pub nc_inq_out : Option NcInqOut

-- The values of oprType that the calls here write or ask for.
pub data OprType : Type 0 where
  nc_open_for_read nc_open_for_write nc_open_group nc_create other_opr : OprType

unfoldable pub is_group : OprType → Bool
is_group nc_open_group = true
is_group nc_open_for_read = false
is_group nc_open_for_write = false
is_group nc_create = false
is_group other_opr = false

-- What the calls here use of a descriptor: `inuse` is inuseFlag == FD_INUSE, `file_path` the one of
-- dataObjInfo, `remote_zone` the connection of remoteZoneHost with remoteL1descInx, and `plugin_data` what
-- any_cast<openedAggInfo_t> gives of pluginData: `none` where that holds anything but the structure itself, such
-- as the pointer that _rsNcOpenColl stores.
pub record L1Desc : Type 0 where
  pub inuse : Bool
  pub opr_type : OprType
  pub remote_zone : Option (ℕ × ℤ)
  pub file_path : List ℕ
  pub l3desc_inx : ℤ
  pub plugin_data : Option OpenedAggInfo

abbrev pub Table : Type 0
Table = ℕ → L1Desc

abbrev pub Run : Type 0
Run = Result (Unit {0}) × Table

-- Where the object of a descriptor is, as resoAndConnHostByDataObjInfo answers.
pub data Host : Type 0 where
  no_host : ℤ → Host
  local_host : Host
  remote_host : ℕ → Host

-- nc_close and rcNcClose give the status of an error, if there is one. NUM_L1_DESC is the size of the
-- table.
pub record CloseEnv : Type 0 where
  pub num_l1_desc : ℕ
  pub host_of : L1Desc → Host
  pub nc_close : ℤ → Option ℤ
  pub rc_nc_close : ℕ → ℤ → Option ℤ
  pub free_l1desc : ℕ → Table → Table
  pub data_obj_close : ℕ → Table → Run

unfoldable pub update : ℕ → (L1Desc → L1Desc) → Table → Table
update inx f t j = if j == inx then f (t j) else t j

unfoldable pub no_l3desc : L1Desc → L1Desc
no_l3desc d = record d { l3desc_inx = pos 0 }

-- savedStatus: the last of the errors.
unfoldable pub keep_err : Err → Run → Run
keep_err e (ok u, t) = (err e, t)
keep_err e (err e1, t) = (err e1, t)
keep_err e (fault, t) = (fault, t)

unfoldable pub then_saved : Run → (Table → Run) → Run
unfolding keep_err
then_saved (ok u, t) next = next t
then_saved (err e, t) next = keep_err e (next t)
then_saved (fault, t) next = (fault, t)

-- Where the status is only written to the log.
unfoldable pub then_log : Run → (Table → Run) → Run
then_log (ok u, t) next = next t
then_log (err e, t) next = next t
then_log (fault, t) next = (fault, t)

unfoldable pub reset_inx : OpenedAggInfo → OpenedAggInfo
reset_inx a = record a { agg_element_inx = negsuc 0; obj_ncid0 = negsuc 0; obj_ncid = negsuc 0 }

unfoldable pub free_infos : OpenedAggInfo → OpenedAggInfo
free_infos a = record a { nc_agg_info = none; nc_inq_out0 = none; nc_inq_out = none }

unfoldable pub map_info :
    (OpenedAggInfo → OpenedAggInfo) → Option OpenedAggInfo → Option OpenedAggInfo
map_info f none = none
map_info f (some a) = some (f a)

unfoldable pub map_plugin : (OpenedAggInfo → OpenedAggInfo) → L1Desc → L1Desc
unfolding map_info
map_plugin f d = record d { plugin_data = map_info f d.plugin_data }

abbrev not_null : {A : Type 0} → Option A → Bool
not_null none = false
not_null (some a) = true

-- A collection has a description.
unfoldable pub is_coll : Option OpenedAggInfo → Bool
is_coll none = false
is_coll (some a) = not_null a.nc_agg_info

module _ (env : CloseEnv) where
  -- The end of ncCloseDataObj.
  unfoldable pub close_l1desc : ℕ → Table → Run
  unfolding update no_l3desc
  close_l1desc inx t = env.data_obj_close inx (update inx no_l3desc t)

  unfoldable pub closed_with : (ℤ → Err) → Option ℤ → ℕ → Table → Run
  unfolding close_l1desc
  closed_with as_err none inx t = close_l1desc inx t
  closed_with as_err (some status) inx t = (err (as_err status), env.free_l1desc inx t)

  unfoldable pub close_on : Host → ℕ → Table → Run
  unfolding closed_with
  close_on (no_host status) inx t = (err (foreign status), t)
  close_on local_host inx t =
      closed_with (code_plus netcdf_close_err) (env.nc_close (t inx).l3desc_inx) inx t
  close_on (remote_host conn) inx t =
      closed_with foreign (env.rc_nc_close conn (t inx).l3desc_inx) inx t

  unfoldable pub nc_close_data_obj : ℕ → Table → Run
  unfolding close_on
  nc_close_data_obj inx t = close_on (env.host_of (t inx)) inx t

  -- A file of a collection, where one is open.
  unfoldable pub close_file : ℤ → Table → Run
  unfolding nc_close_data_obj
  close_file (pos n) t = nc_close_data_obj n t
  close_file (negsuc n) t = (ok tt, t)

  -- The file that is not the first one.
  unfoldable pub close_later : OpenedAggInfo → Table → Run
  unfolding close_file
  close_later a t = if ltb_ℤ (pos 0) a.agg_element_inx then close_file a.obj_ncid t else (ok tt, t)

  unfoldable pub close_first : Option OpenedAggInfo → Table → Run
  unfolding close_file
  close_first none t = (fault, t)
  close_first (some a) t = close_file a.obj_ncid0 t

  unfoldable pub close_files : Option OpenedAggInfo → ℕ → Table → Run
  unfolding close_later close_first then_saved map_plugin reset_inx update
  close_files none inx t = (fault, t)
  close_files (some a) inx t = then_saved (close_later a t) (λ t1.
      then_saved (close_first (t1 inx).plugin_data t1)
        (λ t2. (ok tt, update inx (map_plugin reset_inx) t2)))

  unfoldable pub close_aggr_files : ℕ → Table → Run
  unfolding close_files
  close_aggr_files inx t = close_files (t inx).plugin_data inx t

  unfoldable pub nc_close_coll : ℕ → Table → Run
  unfolding close_aggr_files then_log map_plugin free_infos close_l1desc update
  nc_close_coll inx t =
      then_log (close_aggr_files inx t)
        (λ t1. close_l1desc inx (update inx (map_plugin free_infos) t1))

  unfoldable pub as_run : Option ℤ → Table → Run
  as_run none t = (ok tt, t)
  as_run (some status) t = (err (foreign status), t)

  unfoldable pub close_in_zone : Option (ℕ × ℤ) → ℕ → Table → Run
  unfolding nc_close_coll nc_close_data_obj is_coll is_group as_run
  close_in_zone (some h) inx t = as_run (env.rc_nc_close h.0 h.1) (env.free_l1desc inx t)
  close_in_zone none inx t =
      if is_group (t inx).opr_type
      then (ok tt, env.free_l1desc inx t)
      else (if is_coll (t inx).plugin_data then nc_close_coll inx t else nc_close_data_obj inx t)

  unfoldable pub close_at : ℕ → Table → Run
  unfolding close_in_zone
  close_at inx t =
      if ltb inx 2 || leb env.num_l1_desc inx
      then (err (code sys_file_desc_out_of_range), t)
      else (if (t inx).inuse
          then close_in_zone (t inx).remote_zone inx t
          else (err (code bad_input_desc_index), t))

  unfoldable pub native_status : Option ℤ → Table → Run
  native_status none t = (ok tt, t)
  native_status (some status) t = (err (code_plus netcdf_close_err status), t)

  -- `native` is whether NATIVE_NETCDF_CALL_KW is given.
  unfoldable pub rs_nc_close : Bool → ℤ → Table → Run
  unfolding close_at native_status
  rs_nc_close true ncid t = native_status (env.nc_close ncid) t
  rs_nc_close false (pos inx) t = close_at inx t
  rs_nc_close false (negsuc n) t = (err (code sys_file_desc_out_of_range), t)

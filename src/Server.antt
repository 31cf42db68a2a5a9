-- ===== src/Server.antt =====
-- How a request for an open file reaches the netCDF library that has the file open: the server entries of
-- api/src/rsNcInqId.cpp, api/src/rsNcInqWithId.cpp, api/src/rsNcInqGrps.cpp, api/src/rsNcInq.cpp (with
-- api/lib/_rsNcInqDataObj.cpp) and api/src/rsNcGetVarsByType.cpp. The calls of other servers are parameters.
pub mod Entries
pub mod Reach
pub mod Answers
pub mod Library
pub mod Runs
pub mod Kinds
use irods_netcdf.Base.{
  ℕ, zero, suc, Bool, true, false, ◌||◌, Option, none, some, ℤ, pos, negsuc, if◌then◌else◌, ltb,
  leb,
}
use irods_netcdf.Status.{
  Result, ok, err, fault, ◌>>=◌, code, foreign, sys_file_desc_out_of_range, bad_input_desc_index,
  netcdf_agg_ele_file_not_opened, cat_insufficient_privilege_level,
}
use irods_netcdf.Close.{
  OpenedAggInfo, L1Desc, Table, Host, no_host, local_host, remote_host, is_coll,
}

-- One kind of request: the fields that are read and set, and the call of the library.
pub record Request (Lib In Out : Type 0) : Type 0 where
  pub ncid : In → ℤ
  -- whether NATIVE_NETCDF_CALL_KW is given
  pub native : In → Bool
  pub run : Lib → In → Result Out
  -- what is sent to the server that has the file, to another zone, and for the first file of a collection
  pub to_server : ℤ → In → In
  pub to_zone : ℤ → In → In
  pub to_element : ℤ → In → In

-- A server: its open netCDF files by ncid, its table of descriptors, NUM_L1_DESC, where objects are, and the
-- call of the same entry of another server. `privileged` is authFlag >= REMOTE_PRIV_USER_AUTH of the caller.
pub record Node (Lib In Out : Type 0) : Type 0 where
  pub libs : ℤ → Lib
  pub table : Table
  pub num_l1_desc : ℕ
  pub host_of : L1Desc → Host
  pub rc : ℕ → In → Result Out
  pub privileged : Bool

module _ {Lib In Out : Type 0} (req : Request Lib In Out) (node : Node Lib In Out) where
  -- irods::get_l1desc
  unfoldable pub get_l1desc : ℤ → Result L1Desc
  get_l1desc (pos inx) = if leb node.num_l1_desc inx then fault else ok (node.table inx)
  get_l1desc (negsuc n) = fault

  -- The checks of an entry: the range, and inuseFlag.
  unfoldable pub in_use : L1Desc → Result L1Desc
  in_use d = if d.inuse then ok d else err (code bad_input_desc_index)

  unfoldable pub checked_desc : ℤ → Result L1Desc
  unfolding in_use
  checked_desc (pos inx) =
      if ltb inx 2 || leb node.num_l1_desc inx
      then err (code sys_file_desc_out_of_range)
      else in_use (node.table inx)
  checked_desc (negsuc n) = err (code sys_file_desc_out_of_range)

  unfoldable pub on_host : Host → ℤ → In → Result Out
  on_host (no_host status) l3desc_inx inp = err (foreign status)
  on_host local_host l3desc_inx inp = req.run (node.libs l3desc_inx) inp
  on_host (remote_host conn) l3desc_inx inp = node.rc conn (req.to_server l3desc_inx inp)

  -- The request for a data object, by its descriptor.
  unfoldable pub on_desc : L1Desc → In → Result Out
  unfolding on_host
  on_desc d inp = on_host (node.host_of d) d.l3desc_inx inp

  unfoldable pub for_data_obj : In → Result Out
  unfolding get_l1desc on_desc
  for_data_obj inp = get_l1desc (req.ncid inp) >>= λ d. on_desc d inp

  -- The first file of a collection; -1 is a file that is not opened.
  unfoldable pub for_first : ℤ → (In → Result Out) → In → Result Out
  for_first (pos n) obj inp = obj (req.to_element (pos n) inp)
  for_first (negsuc zero) obj inp = err (code netcdf_agg_ele_file_not_opened)
  for_first (negsuc (suc n)) obj inp = obj (req.to_element (negsuc (suc n)) inp)

  unfoldable pub for_element : Option OpenedAggInfo → (In → Result Out) → In → Result Out
  unfolding for_first
  for_element none obj inp = err (code netcdf_agg_ele_file_not_opened)
  for_element (some a) obj inp = for_first a.obj_ncid0 obj inp

  unfoldable pub for_coll : (In → Result Out) → In → Result Out
  unfolding get_l1desc for_element
  for_coll obj inp = get_l1desc (req.ncid inp) >>= λ d. for_element d.plugin_data obj inp

  -- An object that may be of another zone.
  unfoldable pub in_zone : Option (ℕ × ℤ) → In → (In → Result Out) → Result Out
  in_zone (some h) inp next = node.rc h.0 (req.to_zone h.1 inp)
  in_zone none inp next = next inp

  unfoldable pub for_obj_of_zone : In → Result Out
  unfolding get_l1desc in_zone for_data_obj
  for_obj_of_zone inp = get_l1desc (req.ncid inp) >>= λ d. in_zone d.remote_zone inp for_data_obj

  -- rsNcInqId and rsNcInqWithId: first the zone, then collection or object.
  unfoldable pub coll_or_obj : L1Desc → In → Result Out
  unfolding for_coll for_data_obj is_coll
  coll_or_obj d inp = if is_coll d.plugin_data then for_coll for_data_obj inp else for_data_obj inp

  unfoldable pub zone_first : In → Result Out
  unfolding checked_desc in_zone coll_or_obj
  zone_first inp =
      if req.native inp
      then req.run (node.libs (req.ncid inp)) inp
      else (checked_desc (req.ncid inp) >>= λ d. in_zone d.remote_zone inp (coll_or_obj d))

  -- rsNcInq and rsNcGetVarsByType: first collection or object; `coll` is what is done for a collection.
  unfoldable pub coll_first : (In → Result Out) → In → Result Out
  unfolding checked_desc for_obj_of_zone is_coll
  coll_first coll inp =
      if req.native inp
      then req.run (node.libs (req.ncid inp)) inp
      else (checked_desc (req.ncid inp) >>= λ d.
          if is_coll d.plugin_data then coll inp else for_obj_of_zone inp)

  -- rsNcInqGrps: no collections, and a check of who asks for the native call.
  unfoldable pub no_coll : In → Result Out
  unfolding checked_desc in_zone on_desc
  no_coll inp =
      if req.native inp
      then (if node.privileged
          then req.run (node.libs (req.ncid inp)) inp
          else err (code cat_insufficient_privilege_level))
      else (checked_desc (req.ncid inp) >>= λ d. in_zone d.remote_zone inp (on_desc d))

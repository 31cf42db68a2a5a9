-- ===== src/Server/Reach.antt =====
-- Requests that are sent on: from server to server, to other zones, and to the first file of a collection
-- (api/src/rsNcInqId.cpp, api/src/rsNcInqWithId.cpp, api/src/rsNcGetVarsByType.cpp).
use irods_netcdf.Base.{ℕ, ◌≤◌, ◌<◌, ◌≡◌, true, false, Option, none, some, ℤ, pos}
use irods_netcdf.Close.{OpenedAggInfo, L1Desc, Host, no_host, local_host, remote_host, is_coll}
use irods_netcdf.Server.{Request, Node}

-- What is sent on within a zone is answered as what was asked.
pub record InZone {Lib In Out : Type 0} (req : Request Lib In Out) : Type 0 where
  pub server_run :
      (n : ℤ) (lib : Lib) (inp : In) → req.run lib (req.to_server n inp) ≡ req.run lib inp
  pub element_run :
      (n : ℤ) (lib : Lib) (inp : In) → req.run lib (req.to_element n inp) ≡ req.run lib inp
  pub server_ncid : (n : ℤ) (inp : In) → req.ncid (req.to_server n inp) ≡ n
  pub element_ncid : (n : ℤ) (inp : In) → req.ncid (req.to_element n inp) ≡ n
  pub server_native : (n : ℤ) (inp : In) → req.native (req.to_server n inp) ≡ true

-- The same for what is sent to other zones.
pub record Abroad {Lib In Out : Type 0} (req : Request Lib In Out) : Type 0 where
  pub zone_run : (n : ℤ) (lib : Lib) (inp : In) → req.run lib (req.to_zone n inp) ≡ req.run lib inp
  pub zone_ncid : (n : ℤ) (inp : In) → req.ncid (req.to_zone n inp) ≡ n
  pub zone_native :
      (n : ℤ) (inp : In) → req.native inp ≡ false → req.native (req.to_zone n inp) ≡ false

module _ {Lib In Out : Type 0} (net : ℕ → Node Lib In Out) where
  -- The library that has the file with ncid `l3desc_inx` open, where the host is found from server k.
  abbrev pub lib_at : ℕ → Host → ℤ → Option Lib
  lib_at k (no_host status) l3desc_inx = none
  lib_at k local_host l3desc_inx = some ((net k).libs l3desc_inx)
  lib_at k (remote_host c) l3desc_inx = some ((net c).libs l3desc_inx)

  abbrev pub file_of : ℕ → L1Desc → Option Lib
  file_of k d = lib_at k ((net k).host_of d) d.l3desc_inx

  -- The descriptor passes the checks of an entry.
  pub record Usable (k inx : ℕ) : Type 0 where
    pub from_two : 2 ≤ inx
    pub to_num : inx < (net k).num_l1_desc
    pub inuse : ((net k).table inx).inuse ≡ true

  -- The descriptor of server k leads to this file, over any number of zones.
  pub data Reaches : ℕ → ℤ → Lib → Type 0 where
    here :
        {k inx : ℕ} {lib : Lib}
        → Usable k inx
        → ((net k).table inx).remote_zone ≡ none
        → is_coll ((net k).table inx).plugin_data ≡ false
        → file_of k ((net k).table inx) ≡ some lib
        → Reaches k (pos inx) lib
    by_zone :
        {k inx c : ℕ} {n : ℤ} {lib : Lib}
        → Usable k inx
        → ((net k).table inx).remote_zone ≡ some (c, n)
        → is_coll ((net k).table inx).plugin_data ≡ false
        → Reaches c n lib
        → Reaches k (pos inx) lib
    by_coll :
        {k inx first : ℕ} {a : OpenedAggInfo} {lib : Lib}
        → Usable k inx
        → ((net k).table inx).remote_zone ≡ none
        → ((net k).table inx).plugin_data ≡ some a
        → is_coll (some a) ≡ true
        → a.obj_ncid0 ≡ pos first
        → first < (net k).num_l1_desc
        → file_of k ((net k).table first) ≡ some lib
        → Reaches k (pos inx) lib

  -- The same for data objects: no collection is on the way.
  pub data ObjReaches : ℕ → ℤ → Lib → Type 0 where
    at_host :
        {k inx : ℕ} {lib : Lib}
        → Usable k inx
        → ((net k).table inx).remote_zone ≡ none
        → is_coll ((net k).table inx).plugin_data ≡ false
        → file_of k ((net k).table inx) ≡ some lib
        → ObjReaches k (pos inx) lib
    in_other_zone :
        {k inx c : ℕ} {n : ℤ} {lib : Lib}
        → Usable k inx
        → ((net k).table inx).remote_zone ≡ some (c, n)
        → is_coll ((net k).table inx).plugin_data ≡ false
        → ObjReaches c n lib
        → ObjReaches k (pos inx) lib

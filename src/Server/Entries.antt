-- ===== src/Server/Entries.antt =====
-- The server entries as requests: rsNcInqId (api/src/rsNcInqId.cpp), rsNcInqWithId (api/src/rsNcInqWithId.cpp),
-- rsNcInqGrps (api/src/rsNcInqGrps.cpp), rsNcInq (api/src/rsNcInq.cpp, api/lib/_rsNcInqDataObj.cpp) and
-- rsNcGetVarsByType (api/src/rsNcGetVarsByType.cpp).
use irods_netcdf.Base.{
  ℕ, Bool, true, false, Option, none, some, List, [], ◌∷◌, ℤ, pos, if◌then◌else◌, codes,
  strcasecmp_eq, length,
}
use irods_netcdf.Status.{Result, ok, ◌>>=◌}
use irods_netcdf.Inq.{NcGenDimOut, NcInqOut}
use irods_netcdf.Inq.Query.{NcLib, NcInqInp, nc_inq}
use irods_netcdf.Vars.{NcGetVarInp}
use irods_netcdf.Close.{OpenedAggInfo}
use irods_netcdf.Agg.{NcAggElement, NcAggInfo, sum_agg_element_arraylen}
use irods_netcdf.Arch.{find_time_dim}
use irods_netcdf.Server.{
  Request, Node, get_l1desc, zone_first, coll_first, no_coll, for_obj_of_zone, for_coll,
}
use irods_netcdf.Server.Library.{
  NcInqIdInp, NcInqWithIdOut, inq_id, inq_with_id, NcGrpLib, NcInqGrpsInp, inq_grps,
}

-- What rsNcInqId sends on: the type and the name.
abbrev pub inq_id_request : Request NcLib NcInqIdInp ℤ
inq_id_request = record {
  ncid = λ inp. inp.ncid;
  native = λ inp. inp.native;
  run = inq_id;
  to_server = λ ncid inp. record inp { ncid = ncid; myid = pos 0; native = true };
  to_zone = λ ncid inp. record inp { ncid = ncid; myid = pos 0; native = false };
  to_element = λ ncid inp. record inp { ncid = ncid; native = false };
}

unfoldable pub rs_nc_inq_id : Node NcLib NcInqIdInp ℤ → NcInqIdInp → Result ℤ
unfolding zone_first
rs_nc_inq_id = zone_first inq_id_request

abbrev pub inq_with_id_request : Request NcLib NcInqIdInp NcInqWithIdOut
inq_with_id_request = record {
  ncid = λ inp. inp.ncid;
  native = λ inp. inp.native;
  run = inq_with_id;
  to_server = λ ncid inp. record inp { ncid = ncid; native = true };
  to_zone = λ ncid inp. record inp { ncid = ncid; native = false };
  to_element = λ ncid inp. record inp { ncid = ncid; native = false };
}

unfoldable pub rs_nc_inq_with_id :
    Node NcLib NcInqIdInp NcInqWithIdOut → NcInqIdInp → Result NcInqWithIdOut
unfolding zone_first
rs_nc_inq_with_id = zone_first inq_with_id_request

abbrev pub inq_grps_request : Request NcGrpLib NcInqGrpsInp (List (List ℕ))
inq_grps_request = record {
  ncid = λ inp. inp.ncid;
  native = λ inp. inp.native;
  run = λ lib inp. inq_grps lib;
  to_server = λ ncid inp. record inp { ncid = ncid; native = true };
  to_zone = λ ncid inp. record inp { ncid = ncid; native = false };
  to_element = λ ncid inp. inp;
}

unfoldable pub rs_nc_inq_grps :
    Node NcGrpLib NcInqGrpsInp (List (List ℕ)) → NcInqGrpsInp → Result (List (List ℕ))
unfolding no_coll
rs_nc_inq_grps = no_coll inq_grps_request

-- What _rsNcInqDataObj sends on; to another zone only the descriptor.
abbrev pub inq_request : Request NcLib NcInqInp NcInqOut
inq_request = record {
  ncid = λ inp. inp.ncid;
  native = λ inp. inp.native;
  run = nc_inq;
  to_server = λ ncid inp. record inp { ncid = ncid; native = true };
  to_zone = λ ncid inp. record {
    param_type = 0;
    ncid = ncid;
    myid = pos 0;
    flags = 0;
    name = [];
    native = false;
  };
  to_element = λ ncid inp. record inp { ncid = ncid; native = false };
}

-- The ncAggInfo_t that was read, with as many elements as numFiles.
abbrev pub agg_info_of : List NcAggElement → NcAggInfo
agg_info_of files = record {
  num_files = length files;
  nc_object_name = [];
  nc_agg_element = some files;
}

abbrev pub files_of : Option OpenedAggInfo → List NcAggElement
files_of none = []
files_of (some a) = elim a.nc_agg_info [ none ↦ [] | some files ↦ files ]

abbrev pub is_some : Option ℕ → Bool
is_some none = false
is_some (some a) = true

-- The first dimension with the name time gets this length.
unfoldable pub set_time_len : ℕ → List NcGenDimOut → List NcGenDimOut
set_time_len total [] = []
set_time_len total (d ∷ dims) =
    let rest = set_time_len total dims in
    if strcasecmp_eq d.name (codes "time") then record d { array_len = total } ∷ dims else d ∷ rest

-- The correction of the time dimension, to the sum over all files.
unfoldable pub correct_time : List NcAggElement → NcInqOut → Result NcInqOut
unfolding set_time_len
correct_time files out =
    if is_some (find_time_dim 0 out.dim)
    then (sum_agg_element_arraylen (agg_info_of files) (length files) >>= λ total.
        ok (record out { dim = set_time_len total out.dim }))
    else ok out

module _ (node : Node NcLib NcInqInp NcInqOut) where
  -- _rsNcInqDataObj
  unfoldable pub rs_nc_inq_data_obj : NcInqInp → Result NcInqOut
  unfolding for_obj_of_zone
  rs_nc_inq_data_obj = for_obj_of_zone inq_request node

  -- _rsNcInqColl
  unfoldable pub rs_nc_inq_coll : NcInqInp → Result NcInqOut
  unfolding for_coll rs_nc_inq_data_obj correct_time get_l1desc
  rs_nc_inq_coll inp = for_coll inq_request node rs_nc_inq_data_obj inp >>= λ out.
      get_l1desc inq_request node inp.ncid >>= λ d. correct_time (files_of d.plugin_data) out

  -- rsNcInq
  unfoldable pub rs_nc_inq : NcInqInp → Result NcInqOut
  unfolding coll_first rs_nc_inq_coll
  rs_nc_inq inp = coll_first inq_request node rs_nc_inq_coll inp

-- What rsNcGetVarsByType asks: NcGetVarInp of Vars with the descriptor as an int.
pub record GetVarReq : Type 0 where
  pub ncid : ℤ
  pub native : Bool
  pub var_inp : NcGetVarInp

module _ {Lib Out : Type 0} (get : Lib → GetVarReq → Result Out) where
  -- `get` is _rsNcGetVarsByType on the file. The local call reads the arrays of the request only.
  abbrev pub get_var_request : Request Lib GetVarReq Out
  get_var_request = record {
    ncid = λ inp. inp.ncid;
    native = λ inp. inp.native;
    run = get;
    to_server = λ ncid inp. record inp { ncid = ncid; native = true };
    to_zone = λ ncid inp. record inp { ncid = ncid };
    to_element = λ ncid inp. record inp { ncid = ncid };
  }

  -- _rsNcGetVarsByTypeForObj
  unfoldable pub rs_nc_get_vars_for_obj : Node Lib GetVarReq Out → GetVarReq → Result Out
  unfolding for_obj_of_zone
  rs_nc_get_vars_for_obj node = for_obj_of_zone get_var_request node

  -- rsNcGetVarsByType; `coll` is what is done for a collection.
  unfoldable pub rs_nc_get_vars_by_type_entry :
      (Node Lib GetVarReq Out → GetVarReq → Result Out)
      → Node Lib GetVarReq Out
      → GetVarReq
      → Result Out
  unfolding coll_first
  rs_nc_get_vars_by_type_entry coll node = coll_first get_var_request node (coll node)

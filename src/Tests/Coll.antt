-- ===== src/Tests/Coll.antt =====
-- A collection of two files, of two and three time steps, and a request for the steps from 1 to 3.
use irods_netcdf.Base.{
  ℕ, ◌*◌, ◌≡◌, refl, none, some, List, [], ◌∷◌, pos, negsuc, take, drop, codes, pos_part, ◌⊎◌, ◌==◌,
  if◌then◌else◌,
}
use irods_netcdf.Status.{ok, err, code, netcdf_agg_ele_file_not_opened}
use irods_netcdf.NcType.{nc_int}
use irods_netcdf.Inq.{NcInqOut}
use irods_netcdf.Vars.{DimRange, NcGetVarInp, NcGetVarOut}
use irods_netcdf.Agg.{NcAggElement}
use irods_netcdf.Coll.{OpenedAggInfo, ObjOps}
use irods_netcdf.Coll.Request.{rs_nc_get_vars_by_type_for_coll}
use irods_netcdf.Coll.Rows.{flatten}

abbrev inq0 : NcInqOut
inq0 = record {
  unlimdimid = pos 0;
  format = 1;
  dim = record { array_len = 2; id = pos 0; myint = pos 0; name = codes "Time" } ∷ [];
  var =
      record {
        data_type = nc_int;
        id = pos 4;
        myint = pos 0;
        name = codes "temp";
        att = [];
        dim_id = 0 ∷ [];
      }
      ∷ [];
  gatt = [];
}

abbrev file : ℕ → NcAggElement
file n = record {
  start_time = 0;
  end_time = 0;
  astart_time = [];
  aend_time = [];
  arraylen = n;
  obj_path = n ∷ [];
}

abbrev rows_of : ℕ → List (List ℕ)
rows_of n = if (n == 12) then (3 ∷ []) ∷ (4 ∷ []) ∷ (5 ∷ []) ∷ [] else (1 ∷ []) ∷ (2 ∷ []) ∷ []

abbrev slice : ℕ → List DimRange → NcGetVarOut ℕ
slice n [] = record {
  data_type_pi = codes "intDataArray_PI";
  data_type = nc_int;
  len = 0;
  buf = [];
}
slice n (d ∷ ds) = record {
  data_type_pi = codes "intDataArray_PI";
  data_type = nc_int;
  len = pos_part d.count * 1;
  buf = flatten (take (pos_part d.count) (drop (pos_part d.start) (rows_of n)));
}

abbrev ops : ObjOps ℕ
ops = record {
  open_obj = λ path. ok 12;
  inq_obj = λ ncid. ok inq0;
  get_obj = λ ncid inp. some (slice (pos_part ncid) inp.dims);
}

abbrev inp : NcGetVarInp
inp = record {
  data_type = nc_int;
  ncid = 5;
  varid = pos 4;
  dims = record { start = pos 1; count = pos 3; stride = pos 1 } ∷ [];
}

-- The collection with its first file open, and with both.
abbrev state0 : OpenedAggInfo
state0 = record {
  agg_element_inx = 0;
  obj_ncid0 = pos 11;
  obj_ncid = negsuc 0;
  files = file 2 ∷ file 3 ∷ [];
  nc_inq_out0 = some inq0;
  nc_inq_out = none;
}

abbrev state1 : OpenedAggInfo
state1 = record state0 { agg_element_inx = 1; obj_ncid = pos 12; nc_inq_out = some inq0 }

abbrev Open : OpenedAggInfo → Type 0
Open o = (o ≡ state0) ⊎ (o ≡ state1)

abbrev part : ℕ → ℕ → ℕ → NcGetVarOut ℕ
part n start count = slice n (record { start = pos start; count = pos count; stride = pos 1 } ∷ [])

not_opened :
    rs_nc_get_vars_by_type_for_coll ops 0 inp none ≡ err (code netcdf_agg_ele_file_not_opened)
unfolding rs_nc_get_vars_by_type_for_coll
not_opened = refl

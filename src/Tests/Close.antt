-- ===== src/Tests/Close.antt =====
-- A collection as descriptor 2 with its files as descriptors 3 and 4, where nc_close fails.
use irods_netcdf.Base.{
  ℕ, refl, true, false, none, some, [], pos, negsuc, ◌==◌, if◌then◌else◌, arith,
}
use irods_netcdf.Status.{err, foreign}
use irods_netcdf.Close.{
  OpenedAggInfo, L1Desc, Table, Run, local_host, nc_open_for_read, CloseEnv, update, rs_nc_close,
  nc_close_data_obj,
}
use irods_netcdf.Close.Freed.{Freed, FreesDesc, Closes}
use irods_netcdf.Close.Object.{OpenDesc, rs_nc_close-Closes}

abbrev info : OpenedAggInfo
info = record {
  agg_element_inx = pos 1;
  obj_ncid0 = pos 3;
  obj_ncid = pos 4;
  nc_agg_info = some [];
  nc_inq_out0 = none;
  nc_inq_out = none;
}

abbrev file : L1Desc
file = record {
  inuse = true;
  opr_type = nc_open_for_read;
  file_path = [];
  remote_zone = none;
  l3desc_inx = pos 9;
  plugin_data = none;
}

abbrev table : Table
table j = if j == 2 then record file { plugin_data = some info } else file

abbrev not_in_use : L1Desc → L1Desc
not_in_use d = record d { inuse = false }

abbrev free : ℕ → Table → Table
free inx t = update inx not_in_use t

abbrev env : CloseEnv
env = record {
  num_l1_desc = 1026;
  host_of = λ d. local_host;
  nc_close = λ ncid. some (negsuc 32);
  rc_nc_close = λ conn ncid. none;
  free_l1desc = free;
  data_obj_close = λ inx t. (err (foreign (negsuc 1)), free inx t);
}

free-Freed : (inx : ℕ) (t : Table) → Freed inx t (free inx t)
unfolding irods_netcdf.Close.update
free-Freed inx t = record { not_inuse = ground arith; others = λ j ne. ground arith }

env-FreesDesc : FreesDesc env
env-FreesDesc = record { by_free = free-Freed; by_close = free-Freed; close_returns = λ inx t. tt }

file-OpenDesc : OpenDesc env table 3
unfolding irods_netcdf.Close.is_coll
file-OpenDesc = record {
  from_two = omega arith;
  to_num = omega arith;
  in_use = refl;
  no_coll = refl;
  located = tt;
}

rs_nc_close-Closes_example : Closes env env-FreesDesc 3 table (rs_nc_close env false (pos 3) table)
rs_nc_close-Closes_example = rs_nc_close-Closes env env-FreesDesc table 3 file-OpenDesc

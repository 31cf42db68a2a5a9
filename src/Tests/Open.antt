-- ===== src/Tests/Open.antt =====
-- An object opened as descriptor 5, with a netCDF library that opens it, and closed again.
use irods_netcdf.Base.{ℕ, ◌≡◌, refl, true, false, none, pos, negsuc, inl, inr, codes, arith}
use irods_netcdf.Status.{ok, err, foreign}
use irods_netcdf.Close.{L1Desc, Table, local_host, other_opr, CloseEnv, update, nc_close_data_obj}
use irods_netcdf.Close.Freed.{Freed, FreesDesc}
use irods_netcdf.Open.{NcOpenInp, OpenEnv, rs_nc_open_data_obj, set_opr, with_l3desc}
use irods_netcdf.Open.Balanced.{
  Taken, Balanced, SameUse, rs_nc_open_data_obj-Balanced, nc_close_data_obj-rs_nc_open_data_obj,
}

abbrev pub with_use : L1Desc → L1Desc
with_use d = record d { inuse = true }

abbrev pub no_use : L1Desc → L1Desc
no_use d = record d { inuse = false }

abbrev pub empty : Table
empty j = record {
  inuse = false;
  opr_type = other_opr;
  remote_zone = none;
  file_path = codes "/vault/a.nc";
  l3desc_inx = pos 0;
  plugin_data = none;
}

abbrev opening : OpenEnv
opening = record {
  zone_of = λ path. local_host;
  host_of = λ d. local_host;
  data_obj_open = λ path no_staging t. (ok 5, update 5 with_use t);
  nc_open = λ path mode. inr (pos 65536);
  svr_to_svr_connect = λ conn. none;
  rc_nc_open = λ conn path mode native. inl (negsuc 0);
  free_l1desc = λ inx t. update inx no_use t;
  alloc_for_zone = λ ncid path conn t. (err (foreign (negsuc 0)), t);
}

abbrev pub closing : CloseEnv
closing = record {
  num_l1_desc = 1026;
  host_of = λ d. local_host;
  nc_close = λ ncid. none;
  rc_nc_close = λ conn ncid. none;
  free_l1desc = λ inx t. update inx no_use t;
  data_obj_close = λ inx t. (ok tt, update inx no_use t);
}

pub free-Freed : (inx : ℕ) (t : Table) → Freed inx t (update inx no_use t)
unfolding irods_netcdf.Close.update
free-Freed inx t = record { not_inuse = ground arith; others = λ j ne. ground arith }

closing-FreesDesc : FreesDesc closing
closing-FreesDesc = record {
  by_free = free-Freed;
  by_close = free-Freed;
  close_returns = λ inx t. tt;
}

pub with_use-Taken : Taken 5 empty (update 5 with_use empty)
unfolding irods_netcdf.Close.update
with_use-Taken = record { was_free = refl; in_use = refl; others = λ j ne. ground arith }

abbrev a_nc : NcOpenInp
a_nc = record { obj_path = codes "/zone/a.nc"; mode = 0; no_staging = false }

rs_nc_open_data_obj-Balanced_example : Balanced empty (rs_nc_open_data_obj opening a_nc empty)
rs_nc_open_data_obj-Balanced_example =
    rs_nc_open_data_obj-Balanced opening free-Freed (λ conn. refl) a_nc empty (λ d. tt) refl
      with_use-Taken

abbrev opened : Table
opened = (set_opr 0 5 (update 5 (with_l3desc (pos 65536)) (update 5 with_use empty))).1

opens : rs_nc_open_data_obj opening a_nc empty ≡ (ok 5, opened)
unfolding irods_netcdf.Open.rs_nc_open_data_obj
opens = refl

nc_close_data_obj-rs_nc_open_data_obj_example : SameUse empty (nc_close_data_obj closing 5 opened).1
nc_close_data_obj-rs_nc_open_data_obj_example =
    nc_close_data_obj-rs_nc_open_data_obj opening free-Freed (λ conn. refl) closing
      closing-FreesDesc a_nc empty opened 5 (λ d. tt) refl with_use-Taken opens tt

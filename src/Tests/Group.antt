-- ===== src/Tests/Group.antt =====
-- A group of the object that is open as descriptor 5, and the creation of a file.
use irods_netcdf.Base.{◌≡◌, refl, true, false, none, pos, negsuc, inl, inr, codes, arith}
use irods_netcdf.Status.{ok}
use irods_netcdf.Close.{
  L1Desc, Table, local_host, remote_host, other_opr, nc_create, CloseEnv, update, rs_nc_close,
}
use irods_netcdf.Open.Group.{GroupEnv, rs_nc_open_group}
use irods_netcdf.Open.Group.Root.{rs_nc_open_group-rs_nc_close}
use irods_netcdf.Open.Create.{CreateEnv, rs_nc_create}
use irods_netcdf.Tests.Open.{with_use, no_use, empty, closing}

abbrev one_open : Table
one_open = update 5 with_use empty

abbrev grouping : GroupEnv
grouping = record {
  num_l1_desc = 1026;
  privileged = false;
  host_of = λ d. local_host;
  nc_inq_grp_full_ncid = λ ncid path. inr (pos 65537);
  rc_nc_open_group = λ conn ncid path native. inl (negsuc 0);
  alloc_l1desc = λ t. (ok 6, update 6 with_use t);
  alloc_for_zone = λ ncid root conn t. (negsuc 0, t);
}

rs_nc_open_group-rs_nc_close_example :
    (t' : Table) × (rs_nc_open_group grouping false (pos 5) (codes "/g") one_open
      ≡ (ok (pos 6), t'))
    × ((t' 6).opr_type ≡ other_opr)
    × (rs_nc_close closing false (pos 5) t' ≡ (ok tt, closing.free_l1desc 5 t'))
unfolding irods_netcdf.Close.update
rs_nc_open_group-rs_nc_close_example =
    rs_nc_open_group-rs_nc_close grouping closing 5 6 (codes "/g") (pos 65537) one_open
      (update 6 with_use one_open) refl refl refl refl refl refl refl (λ e. omega arith) refl

-- A server that has the file open is asked with mode 0, whatever the mode of the request is.
abbrev creating : CreateEnv
creating = record {
  privileged = false;
  zone_of = λ path. local_host;
  host_of = λ d. remote_host 3;
  in_special = λ d. true;
  data_obj_create = λ path t. (ok 5, update 5 with_use t);
  create = λ path mode. inl (negsuc 0);
  rc_nc_create = λ conn path mode native. inr (pos mode);
  reg_data_obj = λ d. none;
  api_nc_close = λ inx t. t;
  unlink = λ d t. t;
  free_l1desc = λ inx t. update inx no_use t;
  alloc_for_zone = λ ncid path conn t. (negsuc 0, t);
}

mode_lost : ((rs_nc_create creating false (codes "/zone/a.nc") 4 empty).1 5).l3desc_inx ≡ pos 0
unfolding rs_nc_create
mode_lost = refl

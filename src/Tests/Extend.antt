-- ===== src/Tests/Extend.antt =====
-- An archive of one file, and a source of five times, four of them new.
use irods_netcdf.Base.{ℕ, ◌≡◌, none, List, [], ◌∷◌, ◌++◌, take, drop, codes, pos}
use irods_netcdf.Status.{ok}
use irods_netcdf.NcType.{NcType, nc_int}
use irods_netcdf.Inq.{NcGenDimOut, NcGenVarOut, NcInqOut}
use irods_netcdf.Agg.{NcAggElement}
use irods_netcdf.Arch.{FileOps}
use irods_netcdf.Arch.Server.{
  ArchEnv, chain, closed_once, work, rs_nc_arch_time_series, rs_nc_arch_time_series-finished,
}

abbrev as_int : NcType → ℕ → ℕ
as_int t v = v

-- The state is the ranges that were written.
abbrev ops : FileOps (List (ℕ × ℕ))
ops = record {
  create = λ path s. (ok tt, s);
  dump_subset = λ path range s. (ok tt, s ++ range ∷ []);
  register = λ path s. (ok tt, s);
  close = λ s. s;
}

abbrev time_dim : NcGenDimOut
time_dim = record { array_len = 5; id = pos 0; myint = pos 0; name = codes "time" }

abbrev pub time_var : NcGenVarOut
time_var = record {
  data_type = nc_int;
  id = pos 0;
  myint = pos 0;
  name = codes "time";
  att = [];
  dim_id = 0 ∷ [];
}

abbrev pub source : NcInqOut
source = record {
  unlimdimid = pos 0;
  format = 1;
  dim = time_dim ∷ [];
  var = time_var ∷ [];
  gatt = [];
}

abbrev archived : NcAggElement
archived = record {
  start_time = 1;
  end_time = 5;
  astart_time = [];
  aend_time = [];
  arraylen = 3;
  obj_path = codes "/z/c/c0";
}

abbrev source_times : List ℕ
source_times = 5 ∷ 6 ∷ 7 ∷ 8 ∷ 9 ∷ []

abbrev env : ArchEnv (List (ℕ × ℕ)) ℕ
env = record {
  nc_open = λ s. (ok 3, s);
  nc_close = λ ncid s. s;
  nc_inq = λ ncid s. (ok source, s);
  read_agg_info = λ s. (ok (archived ∷ []), s);
  get_page = λ s ncid v start count. ok (take count (drop start source_times));
  get_agg_info = λ s. (ok tt, s);
  files = ops;
  split_path_by_key = λ path. ok (codes "/z", codes "c");
  as_int = as_int;
  invalid_data_type = 0;
}

rs_nc_arch_time_series-finished_example :
    rs_nc_arch_time_series env (codes "/z/c") 0 none []
    ≡ chain env
        (ok 3, [])
        (λ ncid s1. closed_once env ncid (work env (codes "/z/c") 0 none ncid s1))
rs_nc_arch_time_series-finished_example =
    rs_nc_arch_time_series-finished env (codes "/z/c") 0 none []

-- ===== src/Tests/Dump.antt =====
-- A dump of one dimension and one variable, where the attribute calls fail, and one without dimensions.
use irods_netcdf.Base.{ℕ, some, ◌≡◌, refl, false, true, List, [], ◌∷◌, pos, negsuc, codes}
use irods_netcdf.Status.{Result, ok}
use irods_netcdf.NcType.{nc_int, nc_char}
use irods_netcdf.Inq.{NcGenDimOut, NcGenAttOut, NcInqOut}
use irods_netcdf.Dump.{Call, nc_put_att, Reply, done, failed, dump_nc_inq_out_to_nc_file}
use irods_netcdf.Subset.{NcSubset}
use irods_netcdf.Vars.{NcGetVarInp}
use irods_netcdf.Dump.Part.{NcVarSubset, subset_len, dump_subset_to_file}
use irods_netcdf.Dump.PartClosed.{dump_subset_to_file-Finished, subset_len-count}
use irods_netcdf.Dump.Closed.{dump_nc_inq_out_to_nc_file-Finished}
use irods_netcdf.Dump.Calls.{Finished}

abbrev lat : NcGenDimOut
lat = record { array_len = 4; id = pos 0; myint = pos 0; name = codes "lat" }

abbrev units : NcGenAttOut
units = record {
  data_type = nc_char;
  id = pos 0;
  length = 1;
  name = codes "units";
  value = codes "m";
}

abbrev inq_out : List NcGenDimOut → NcInqOut
inq_out dims = record {
  unlimdimid = negsuc 0;
  format = 3;
  dim = dims;
  var =
      record {
        data_type = nc_int;
        id = pos 0;
        myint = pos 0;
        name = codes "lat";
        att = units ∷ [];
        dim_id = 0 ∷ [];
      }
      ∷ [];
  gatt = [];
}

abbrev reply : Call → List Call → Reply
reply (nc_put_att varid a) calls = failed (negsuc 30)
reply c calls = done (pos 0)

dump_nc_inq_out_to_nc_file-Finished_example :
    Finished
      (codes "out.nc")
      (dump_nc_inq_out_to_nc_file reply (codes "out.nc") true false (inq_out (lat ∷ [])))
dump_nc_inq_out_to_nc_file-Finished_example =
    dump_nc_inq_out_to_nc_file-Finished reply (codes "out.nc") true false (inq_out (lat ∷ [])) lat
      [] (pos 0) refl refl

abbrev lat_1_to_2 : NcSubset
lat_1_to_2 = record {
  subset_var_name = codes "lat";
  start = pos 1;
  stride = pos 1;
  end = pos 2;
  start_str = [];
  end_str = [];
}

abbrev all_vars : NcVarSubset
all_vars = record { num_var = 0; var_name = []; subsets = lat_1_to_2 ∷ [] }

abbrev no_values : NcGetVarInp → Result (List ℕ)
no_values inp = ok []

dump_subset_to_file-Finished_example : Finished (codes "out.nc") (
    dump_subset_to_file reply (codes "out.nc") no_values true 7 false (inq_out (lat ∷ [])) all_vars)
dump_subset_to_file-Finished_example =
    dump_subset_to_file-Finished reply (codes "out.nc") no_values true 7 false (inq_out (lat ∷ []))
      all_vars lat [] (pos 0) refl refl

length_of_two : subset_len (some lat_1_to_2) lat ≡ ok (pos 2)
unfolding irods_netcdf.Subset.dim_range irods_netcdf.Subset.out_of_range irods_netcdf.Base.◌+ℤ◌
    irods_netcdf.Base.◌-ℤ◌
length_of_two =
    subset_len-count lat_1_to_2 lat (record { start = pos 1; count = pos 2; stride = pos 1 }) refl
      refl

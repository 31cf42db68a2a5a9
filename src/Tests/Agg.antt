-- ===== src/Tests/Agg.antt =====
-- Inputs for the theorems on aggregate descriptions: a collection of two files and its .aggInfo.
use irods_netcdf.Base.{
  ℕ, ◌+◌, ◌≡◌, refl, true, none, some, inl, List, [], ◌∷◌, arith, codes, strcmp_eq, if◌then◌else◌,
}
use irods_netcdf.Status.{Result, ok, err, code, netcdf_open_err, ◌>>=◌}
use irods_netcdf.Agg.{NcAggElement, NcAggInfo, add_nc_agg_element, sum_agg_element_arraylen}
use irods_netcdf.Agg.Insert.{Represents}
use irods_netcdf.Agg.Order.{sum_agg_element_arraylen-add}
use irods_netcdf.Agg.Collect.{CollEnt, Loop}

abbrev file : ℕ → ℕ → ℕ → List ℕ → NcAggElement
file s e n path = record {
  start_time = s;
  end_time = e;
  astart_time = [];
  aend_time = [];
  arraylen = n;
  obj_path = path;
}

abbrev later : NcAggElement
later = file 10 20 11 (codes "/z/c/c2")

abbrev earlier : NcAggElement
earlier = file 0 9 10 (codes "/z/c/c1")

abbrev empty_info : NcAggInfo
empty_info = record { num_files = 0; nc_object_name = codes "/z/c"; nc_agg_element = none }

abbrev empty_info-Represents : Represents 10 empty_info []
empty_info-Represents = record { counted = refl; stored = inl (refl, refl) }

abbrev start : Loop
start = record { info = empty_info; status = none; saved_status = none }

abbrev netcdf_file : List ℕ → CollEnt
netcdf_file name = record { is_data_obj = true; data_type = codes "netcdf"; data_name = name }

abbrev agg_info_file : CollEnt
agg_info_file = record {
  is_data_obj = true;
  data_type = codes "generic";
  data_name = codes ".aggInfo";
}

abbrev collection : List CollEnt
collection = netcdf_file (codes "c2") ∷ agg_info_file ∷ netcdf_file (codes "c1") ∷ []

abbrev get_agg_element : List ℕ → Result NcAggElement
get_agg_element path =
    if strcmp_eq path (codes "/z/c/c1")
    then ok earlier
    else if strcmp_eq path (codes "/z/c/c2")
    then ok later
    else err (code netcdf_open_err)

sum_with_one_more :
    (info' : NcAggInfo) × (add_nc_agg_element 10 (some later) (some empty_info) ≡ ok info')
    × (sum_agg_element_arraylen info' info'.num_files
        ≡ (sum_agg_element_arraylen empty_info 0 >>= λ n. ok (11 + n)))
sum_with_one_more =
    sum_agg_element_arraylen-add 10 later empty_info [] (omega arith) empty_info-Represents

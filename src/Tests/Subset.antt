-- ===== src/Tests/Subset.antt =====
-- Runs of the subsets of a variable, over one dimension of four values.
use irods_netcdf.Base.{
  true, ◌≡◌, refl, Option, none, some, List, [], ◌∷◌, ℤ, pos, leb_ℤ, codes, atoll, strcasecmp_eq,
  strcmp_eq, ◌+ℤ◌, ◌-ℤ◌, arith,
}
use irods_netcdf.Status.{Result, ok, ◌>>=◌}
use irods_netcdf.NcType.{nc_int}
use irods_netcdf.Inq.{NcGenDimOut, NcGenVarOut, NcInqOut}
use irods_netcdf.Vars.{DimRange, NcGetVarInp}
use irods_netcdf.Subset.{
  NcSubset, Dimensions, get_single_nc_var_data, nc_subset_var, resolve_subset, dim_range, minus_one,
  long_bound, find_var, is_int, out_of_range,
}
use irods_netcdf.Subset.Bounds.{get_single_nc_var_data-InBounds, nc_subset_var_eq, InBounds}
use irods_netcdf.Subset.Resolved.{Found, resolve_subset-Inside, resolve_subset-Below}

abbrev lat : NcGenDimOut
lat = record { array_len = 4; id = pos 0; myint = pos 0; name = codes "lat" }

abbrev lat_var : NcGenVarOut
lat_var = record {
  data_type = nc_int;
  id = pos 0;
  myint = pos 0;
  name = codes "lat";
  att = [];
  dim_id = 0 ∷ [];
}

abbrev inq_out : NcInqOut
inq_out = record { unlimdimid = pos 0; format = 1; dim = lat ∷ []; var = lat_var ∷ []; gatt = [] }

abbrev subset : ℤ → ℤ → NcSubset
subset lo hi = record {
  subset_var_name = codes "lat";
  start = lo;
  stride = pos 1;
  end = hi;
  start_str = codes "15";
  end_str = codes "30";
}

abbrev values : List ℤ
values = pos 10 ∷ pos 20 ∷ pos 30 ∷ pos 40 ∷ []

abbrev read_all : NcGetVarInp → Result (List ℤ)
read_all inp = ok values

abbrev env : List ℤ → Dimensions (List ℤ) ℤ
env all = record {
  get_vars = λ inp. ok all;
  longs = λ out. out;
  doubles = λ out. out;
  leb_double = λ x y. leb_ℤ x y;
  atof = λ s. pos 0;
  of_time = λ t. t;
  asci_to_time = λ s. none;
}

abbrev whole : List DimRange
whole = record { start = pos 0; count = pos 4; stride = pos 1 } ∷ []

found :
    (all : List ℤ)
    → Found (env all) true 7 inq_out (subset (pos 0) (pos 0)) lat_var all (pos 15) (pos 30)
unfolding find_var is_int get_single_nc_var_data long_bound atoll strcasecmp_eq strcmp_eq
found all = record {
  var_found = refl;
  kind = refl;
  read_dims = whole;
  read_values = refl;
  start_bound = refl;
  end_bound = refl;
}

get_single_nc_var_data-InBounds_example :
    (v : NcGenVarOut) × (◌≡◌ {A = Option NcGenVarOut} (some lat_var) (some v))
    × InBounds (lat ∷ []) v.dim_id (record { start = pos 1; count = pos 2; stride = pos 1 } ∷ [])
    × (◌≡◌ {A = Result (List ℤ)} (ok values) (ok values))
unfolding get_single_nc_var_data ◌+ℤ◌ ◌-ℤ◌ strcmp_eq out_of_range
get_single_nc_var_data-InBounds_example =
    get_single_nc_var_data-InBounds read_all 7 0 inq_out (subset (pos 1) (pos 2) ∷ []) values
      (record { start = pos 1; count = pos 2; stride = pos 1 } ∷ []) (omega arith, tt)
      (omega arith, tt) refl

same_reading :
    nc_subset_var read_all 7 inq_out (codes "lat") (subset (pos 1) (pos 2) ∷ [])
    ≡ (get_single_nc_var_data read_all 7 0 inq_out (subset (pos 1) (pos 2) ∷ []) >>= λ r. ok r.0)
unfolding find_var strcmp_eq
same_reading =
    nc_subset_var_eq read_all 7 0 inq_out (codes "lat") (subset (pos 1) (pos 2) ∷ []) lat_var refl
      refl

resolve_subset-Inside_example :
    (resolve_subset (env values) 7 inq_out (subset (pos 0) (pos 0)) >>= λ r. dim_range (some r) lat)
    ≡ ok (record { start = pos 1; count = pos 2; stride = pos 1 })
resolve_subset-Inside_example =
    resolve_subset-Inside (env values) true 7 inq_out (subset (pos 0) (pos 0)) lat_var values
      (pos 15) (pos 30) (pos 20) (pos 10 ∷ []) (pos 30 ∷ []) (pos 40 ∷ []) lat (found values) refl
      (refl, refl, tt) (refl, refl, (refl, refl, tt)) (refl, refl) refl

abbrev low : List ℤ
low = pos 1 ∷ pos 2 ∷ pos 3 ∷ pos 4 ∷ []

resolve_subset-Below_example :
    (resolve_subset (env low) 7 inq_out (subset (pos 0) (pos 0)) >>= λ r. dim_range (some r) lat)
    ≡ ok (record { start = minus_one; count = pos 5; stride = pos 1 })
resolve_subset-Below_example =
    resolve_subset-Below (env low) true 7 inq_out (subset (pos 0) (pos 0)) lat_var low (pos 15)
      (pos 30) 3 lat (found low) (refl, refl, (refl, refl, (refl, refl, (refl, refl, tt)))) refl
      refl

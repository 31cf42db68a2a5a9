-- ===== src/Tests/Parse.antt =====
-- The subset lat[3%1%12], and a text of one subset.
use irods_netcdf.Base.{arith, ℕ, ◌≡◌, refl, Option, none, some, List, [], ◌∷◌, pos, codes, decimal}
use irods_netcdf.Status.{ok}
use irods_netcdf.Subset.{NcSubset}
use irods_netcdf.Subset.Parse.{parse_nc_subset, subset_text, parse_nc_subset-subset_text}

parse_nc_subset-subset_text_example :
    parse_nc_subset (subset_text (codes "lat") 3 1 12 [])
    ≡ ok (record {
      subset_var_name = codes "lat";
      start = pos 3;
      stride = pos 1;
      end = pos 12;
      start_str = decimal 3;
      end_str = decimal 12;
    })
unfolding decimal
parse_nc_subset-subset_text_example =
    parse_nc_subset-subset_text (codes "lat") 3 1 12 [] (refl, (refl, (refl, tt))) (omega arith)
      (omega arith) (omega arith) (omega arith) (omega arith)

-- A text is one element, and nothing is behind it.
abbrev next_ele : List ℕ → Option (List ℕ × List ℕ)
next_ele [] = none
next_ele (c ∷ cs) = some (c ∷ cs, [])

abbrev lat_subset : NcSubset
lat_subset = record {
  subset_var_name = codes "lat";
  start = pos 3;
  stride = pos 1;
  end = pos 12;
  start_str = codes "3";
  end_str = codes "12";
}

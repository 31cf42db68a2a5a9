-- ===== src/Tests/Transfer.antt =====
-- A copy of a variable of five rows, without dimensions but the first.
use irods_netcdf.Base.{
  ℕ, ◌+◌, ◌*◌, ◌≤◌, ◌≡◌, refl, Option, some, List, [], ◌∷◌, ◌++◌, pos, arith, take, drop, pos_part,
}
use irods_netcdf.Status.{Result, ok}
use irods_netcdf.NcType.{nc_int}
use irods_netcdf.Vars.{DimRange, NcGetVarInp}
use irods_netcdf.Transfer.{LRange, get_and_put_var_to_file, move_part, nc_var_trans_sz}
use irods_netcdf.Transfer.Chunks.{Tiles, move_all}
use irods_netcdf.Transfer.Copy.{get_and_put_var_to_file-Tiles}

abbrev rows : List ℕ
rows = 11 ∷ 12 ∷ 13 ∷ 14 ∷ 15 ∷ []

abbrev slice : List DimRange → List ℕ
slice [] = []
slice (d ∷ ds) = take (pos_part d.count) (drop (pos_part d.start) rows)

abbrev get_vars : NcGetVarInp → Result (List ℕ)
get_vars inp = ok (slice inp.dims)

abbrev put_vars : List LRange → List ℕ → List ℕ → Option (List ℕ)
put_vars ds out file = some (file ++ out)

abbrev range : LRange
range = record { lstart = 0; lcount = 5; lstride = 1 }

get_and_put_var_to_file-Tiles_example :
    (step : ℕ) × (parts : List (ℕ × ℕ)) × Tiles step 0 (0 + 5) parts
    × (step * 1 ≤ nc_var_trans_sz + 1)
    × (get_and_put_var_to_file get_vars put_vars 3 (pos 0) nc_int (range ∷ []) []
        ≡ move_all (move_part get_vars put_vars nc_int 3 (pos 0) range []) parts [])
get_and_put_var_to_file-Tiles_example =
    get_and_put_var_to_file-Tiles get_vars put_vars 3 (pos 0) nc_int range [] []
      (refl, omega arith, tt) (omega arith) (omega arith) (omega arith)

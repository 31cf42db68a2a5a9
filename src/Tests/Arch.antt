-- ===== src/Tests/Arch.antt =====
-- Runs of the archive: the search over 102 times, in two pages, and an archive of ten time steps with an
-- interval of 3.
use irods_netcdf.Base.{
  ℕ, ◌+◌, ◌/◌, ◌≡◌, refl, List, [], ◌∷◌, ◌++◌, arith, take, drop, replicate, codes,
}
use irods_netcdf.Status.{Result, ok}
use irods_netcdf.NcType.{NcType}
use irods_netcdf.Arch.{FileOps, arch_with, arch_loop, write_file, this_interval, subset_end}
use irods_netcdf.Arch.Files.{Covers, write_all, arch_with-Covers}

abbrev as_int : NcType → ℕ → ℕ
as_int t v = v

abbrev times : List ℕ
times = 5 ∷ (replicate 101 9)

abbrev get_page : ℕ → ℕ → Result (List ℕ)
get_page start count = ok (take count (drop start times))

-- The state is the paths and the ranges that were written.
abbrev ops : FileOps (List (ℕ × ℕ))
ops = record {
  create = λ path s. (ok tt, s);
  dump_subset = λ path range s. (ok tt, s ++ range ∷ []);
  register = λ path s. (ok tt, s);
  close = λ s. s;
}

arch_with-Covers_example :
    (files : List (ℕ × ℕ)) × Covers (3 + 3 / 2 + 1) 0 (9 + 1) files
    × (arch_with ops (ok (3, (codes "b", 0))) 0 9 [] ≡ write_all ops (codes "b") 0 files [])
arch_with-Covers_example = arch_with-Covers ops 3 0 9 (codes "b") 0 [] (omega arith) (omega arith)

-- Ten time steps make three files.
arch_run : (arch_with ops (ok (3, (codes "b", 0))) 0 9 []) ≡ (ok tt, (0, 2) ∷ (3, 5) ∷ (6, 9) ∷ [])
unfolding arch_with arch_loop write_file this_interval subset_end
arch_run = refl

-- ===== src/Arch/Start.antt =====
-- Where getTimeInxForArch (api/src/rsNcArchTimeSeries.cpp) lets the new time steps begin.
use irods_netcdf.Base.{
  ℕ, zero, suc, ◌+◌, ◌-◌, ◌≤◌, ◌<◌, ◌≡◌, refl, Option, none, some, List, [], ◌∷◌, arith, ◌==◌,
  Bool-cases, inl, inr, length, take, drop, min, subst,
}
use irods_netcdf.Status.{Result, ok, err, code, netcdf_dim_mismatch_err}
use irods_netcdf.NcType.{NcType}
use irods_netcdf.Arch.{
  nc_value_to_int, scan_page, read_count, found_or, page_loop, get_time_inx_for_arch,
}

read_count-pos : (remain : ℕ) → 0 < remain → (0 < read_count remain) × (read_count remain ≤ remain)
unfolding read_count
read_count-pos remain h = (ground arith, ground arith)

module _ {V : Type 0} (as_int : NcType → V → ℕ) (invalid_data_type : ℕ) (t : NcType)
    (prev : ℕ) where
  -- The first n of the times are up to the end of the archive, and the others are past it.
  abbrev pub SplitsAt : ℕ → List V → Type 0
  SplitsAt n [] = n ≡ 0
  SplitsAt zero (v ∷ vs) = (prev < nc_value_to_int as_int invalid_data_type t v) × SplitsAt zero vs
  SplitsAt (suc n) (v ∷ vs) = (nc_value_to_int as_int invalid_data_type t v ≤ prev) × SplitsAt n vs

  drop-SplitsAt : (r n : ℕ) (vs : List V) → SplitsAt n vs → SplitsAt (n - r) (drop r vs)
  drop-SplitsAt zero n vs h = subst (λ k. SplitsAt k vs) (omega arith) h
  drop-SplitsAt (suc r) n [] h = omega arith
  drop-SplitsAt (suc r) zero (v ∷ vs) (x, h) =
      subst (λ k. SplitsAt k (drop r vs)) (omega arith) (drop-SplitsAt r zero vs h)
  drop-SplitsAt (suc r) (suc n) (v ∷ vs) (x, h) =
      subst (λ k. SplitsAt k (drop r vs)) (omega arith) (drop-SplitsAt r n vs h)

  take-SplitsAt : (c n : ℕ) (vs : List V) → SplitsAt n vs → SplitsAt (min n c) (take c vs)
  take-SplitsAt zero n vs h = omega arith
  take-SplitsAt (suc c) n [] h = omega arith
  take-SplitsAt (suc c) zero (v ∷ vs) (x, h) =
      let e : min zero (suc c) ≡ zero = omega arith in
      let e' : min zero c ≡ zero = omega arith in
      rw e (x, subst (λ k. SplitsAt k (take c vs)) e' (take-SplitsAt c zero vs h))
  take-SplitsAt (suc c) (suc n) (v ∷ vs) (x, h) =
      let e : min (suc n) (suc c) ≡ suc (min n c) = omega arith in rw e (x, take-SplitsAt c n vs h)

  -- The good index of a page that has `n` old times in front.
  abbrev last_good : ℕ → Option ℕ → ℕ → Option ℕ
  last_good i good zero = good
  last_good i good (suc n) = some (i + n)

  scan_page-SplitsAt :
      (n : ℕ) (vs : List V) (i : ℕ) (good : Option ℕ)
      → SplitsAt n vs
      → scan_page as_int invalid_data_type t prev i good vs ≡ last_good i good n
  unfolding scan_page
  scan_page-SplitsAt n [] i good h = rw h refl
  scan_page-SplitsAt zero (v ∷ vs) i good (x, h) = ground arith
  scan_page-SplitsAt (suc zero) (v ∷ vs) i good (x, h) =
      ground (arith, scan_page-SplitsAt zero vs (i + 1) (some i) h)
  scan_page-SplitsAt (suc (suc n)) (v ∷ vs) i good (x, h) =
      ground (arith, scan_page-SplitsAt (suc n) vs (i + 1) (some i) h)

  module _ (get_page : ℕ → ℕ → Result (List V)) where
    -- A read of a page within the variable gives its times.
    abbrev pub ReadsPages : List V → Type 0
    ReadsPages times =
        (start count : ℕ)
        → 0 < count
        → start + count ≤ length times
        → get_page start count ≡ ok (take count (drop start times))

    page_loop-none :
        (fuel remain : ℕ) (times : List V)
        → ReadsPages times
        → SplitsAt 0 times
        → remain ≤ length times
        → remain < fuel
        → page_loop as_int invalid_data_type get_page t prev fuel remain
          ≡ err (code netcdf_dim_mismatch_err)
    unfolding page_loop found_or
    page_loop-none zero remain times r s b f = absurd (omega arith)
    page_loop-none (suc fuel) remain times r s b f = elim (Bool-cases (remain == 0)) [
      | inl over ↦ rw over refl
      | inr more ↦
          let count = read_count remain in
          let start = remain - count in
          let (some_time, inside) = read_count-pos remain (ground arith) in
          let nothing : min (0 - start) count ≡ 0 = omega arith in
          let scanned : scan_page as_int invalid_data_type t prev 0 none
                (take count (drop start times))
              ≡ none =
            scan_page-SplitsAt 0 (take count (drop start times)) 0 none (
              subst (λ k. SplitsAt k (take count (drop start times))) nothing
                (take-SplitsAt count (0 - start) (drop start times)
                  (drop-SplitsAt start 0 times s))) in
          rw (more, r start count some_time (omega arith), scanned)
            (page_loop-none fuel start times r s (omega arith) (omega arith))
    ]

    -- Where reads of at least one time step, within the variable, give its times, and every one of these is
    -- past the end of the archive, the search reads them all and
    -- ends with NETCDF_DIM_MISMATCH_ERR.
    pub get_time_inx_for_arch-none :
        (times : List V)
        → ReadsPages times
        → SplitsAt 0 times
        → get_time_inx_for_arch as_int invalid_data_type get_page t (length times) prev
          ≡ err (code netcdf_dim_mismatch_err)
    unfolding get_time_inx_for_arch
    get_time_inx_for_arch-none times r s =
        page_loop-none (length times + 1) (length times) times r s (omega arith) (omega arith)

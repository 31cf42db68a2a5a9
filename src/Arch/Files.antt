-- ===== src/Arch/Files.antt =====
-- The files that archPartialTimeSeries (api/src/rsNcArchTimeSeries.cpp) writes: their ranges of time
-- steps, and their order.
use irods_netcdf.Base.{
  ℕ, zero, suc, ◌+◌, ◌-◌, ◌/◌, ◌≤◌, ◌<◌, ◌≡◌, refl, true, false, List, [], ◌∷◌, arith, ltb,
  if◌then◌else◌, Bool-cases, ltb→lt, ◌⊎◌, inl, inr,
}
use irods_netcdf.Status.{Result, ok, err, fault}
use irods_netcdf.Agg.Path.{arch_obj_path}
use irods_netcdf.Arch.{
  FileOps, and_then, write_file, this_interval, subset_end, arch_loop, arch_with,
}

-- Ranges of at least one and at most `limit` time steps that follow each other from a up to, without, b.
abbrev pub Covers : ℕ → ℕ → ℕ → List (ℕ × ℕ) → Type 0
Covers limit a b [] = a ≡ b
Covers limit a b (r ∷ rs) =
    (r.0 ≡ a) × (r.0 ≤ r.1) × (r.1 + 1 ≤ limit + r.0) × Covers limit (r.1 + 1) b rs

-- The ranges of the loop.
unfoldable pub ranges : ℕ → ℕ → ℕ → ℕ → List (ℕ × ℕ)
unfolding this_interval subset_end
ranges zero interval cur end = []
ranges (suc fuel) interval cur end =
    let interval' = this_interval interval (end - cur + 1) in
    let last = subset_end cur end interval' in
    let rest = ranges fuel interval' (last + 1) end in
    if ltb cur end then (cur, last) ∷ rest else []

-- A range leaves no single time step behind: either it ends the series, or more than one is left.
next_range :
    (interval cur end : ℕ)
    → 0 < interval
    → cur < end
    → let interval' = this_interval interval (end - cur + 1) in
      let last = subset_end cur end interval' in
      (cur ≤ last)
      × (last + 1 ≤ interval + interval / 2 + 1 + cur)
      × (0 < interval')
      × (((last + 1 < end) × (interval' ≡ interval)) ⊎ (last ≡ end))
unfolding this_interval subset_end
next_range interval cur end p c = (ground arith, ground arith, ground arith, ground arith)

ranges-Covers :
    (fuel interval cur end limit : ℕ)
    → 0 < interval
    → end - cur < fuel
    → ((cur < end) × (interval + interval / 2 + 1 ≤ limit)) ⊎ (cur ≡ end + 1)
    → Covers limit cur (end + 1) (ranges fuel interval cur end)
unfolding ranges
ranges-Covers zero interval cur end limit p f c = absurd (omega arith)
ranges-Covers (suc fuel) interval cur end limit p f (inr over) =
    let done : ltb cur end ≡ false = ground arith in rw done over
ranges-Covers (suc fuel) interval cur end limit p f (inl (c, l)) =
    let interval' = this_interval interval (end - cur + 1) in
    let last = subset_end cur end interval' in
    let (first, size, some_step, next) = next_range interval cur end p c in
    let more : ltb cur end ≡ true = ground arith in
    rw more (
      refl,
      first,
      omega arith,
      ranges-Covers fuel interval' (last + 1) end limit some_step (omega arith) (ground arith),
    )

-- Files of those ranges, with numbers that go up by one, up to the first that fails.
unfoldable pub write_all :
    {S : Type 0} → FileOps S → List ℕ → ℕ → List (ℕ × ℕ) → S → Result (Unit {0}) × S
unfolding write_file
write_all ops base_path next_number [] s = (ok tt, s)
write_all ops base_path next_number (r ∷ rs) s =
    and_then (write_file ops (arch_obj_path base_path next_number) r s)
      (write_all ops base_path (next_number + 1) rs)

and_then_cong {ℓ} :
    {S : Type ℓ} (r : Result (Unit {0}) × S) {f g : S → Result (Unit {0}) × S}
    → ((s : S) → f s ≡ g s)
    → and_then r f ≡ and_then r g
and_then_cong (ok u, s) h = h s
and_then_cong (err e, s) h = refl
and_then_cong (fault, s) h = refl

module _ {S : Type 0} (ops : FileOps S) where
  arch_loop-write_all :
      (fuel : ℕ) (base : List ℕ) (n interval cur end : ℕ) (s : S)
      → 0 < interval
      → end - cur < fuel
      → arch_loop ops fuel base n interval cur end s
        ≡ write_all ops base n (ranges fuel interval cur end) s
  unfolding arch_loop write_all ranges
  arch_loop-write_all zero base n interval cur end s p f = absurd (omega arith)
  arch_loop-write_all (suc fuel) base n interval cur end s p f = elim (Bool-cases (ltb cur end)) [
    | inl more ↦
        let interval' = this_interval interval (end - cur + 1) in
        let last = subset_end cur end interval' in
        let (first, size, some_step, next) = next_range interval cur end p (ltb→lt cur end more) in
        rw more (
          and_then_cong (write_file ops (arch_obj_path base n) (cur, last) s) (λ s'.
            arch_loop-write_all fuel base (n + 1) interval' (last + 1) end s' some_step
              (omega (arith, ltb→lt cur end more))))
    | inr done ↦ rw done refl
  ]

  -- Once the interval and the base path are found, the archive of the time steps from `start` to `end`, of
  -- which there are two or more, is a sequence of files with numbers that go up by one. Their ranges follow
  -- each other and cover the time steps exactly; none is empty or longer than one and a half intervals and
  -- one step. The archive ends, and it stops at the first file that fails.
  pub arch_with-Covers :
      (interval start end : ℕ) (base : List ℕ) (n : ℕ) (s : S)
      → 0 < interval
      → start < end
      → (files : List (ℕ × ℕ)) × Covers (interval + interval / 2 + 1) start (end + 1) files
        × (arch_with ops (ok (interval, (base, n))) start end s ≡ write_all ops base n files s)
  unfolding arch_with
  arch_with-Covers interval start end base n s p h = (
    ranges (end - start + 1) interval start end,
    ranges-Covers (end - start + 1) interval start end (interval + interval / 2 + 1) p (omega arith)
        (inl (h, omega arith)),
    arch_loop-write_all (end - start + 1) base n interval start end s p (omega arith),
  )

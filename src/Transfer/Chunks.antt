-- ===== src/Transfer/Chunks.antt =====
-- The parts that getAndPutVarToFile (api/lib/rcNcInq.cpp) copies, and that the loop ends.
use irods_netcdf.Base.{
  ℕ, zero, suc, ◌+◌, ◌-◌, ◌≤◌, ◌<◌, ◌%◌, ◌≡◌, refl, Option, List, [], ◌∷◌, ℤ, arith, ltb,
  if◌then◌else◌, Bool-cases, ltb→lt, inl, inr,
}
use irods_netcdf.Status.{Result, ok, ◌>>=◌, >>=_cong}
use irods_netcdf.NcType.{NcType}
use irods_netcdf.Vars.{NcGetVarInp}
use irods_netcdf.Transfer.{LRange, word, move_part, transfer_loop}

-- Parts of at most `step` that follow each other from a to b, each given by its start and its count.
abbrev pub Tiles : ℕ → ℕ → ℕ → List (ℕ × ℕ) → Type 0
Tiles step a b [] = a ≡ b
Tiles step a b (p ∷ ps) = (p.0 ≡ a) × (0 < p.1) × (p.1 ≤ step) × Tiles step (a + p.1) b ps

-- A move of each part in turn, up to the first that fails.
unfoldable pub move_all : {S : Type 0} → (ℕ → ℕ → S → Result S) → List (ℕ × ℕ) → S → Result S
move_all move [] s = ok s
move_all move ((start, count) ∷ ps) s = move start count s >>= λ s'. move_all move ps s'

-- The count of the next part, where nothing wraps around.
unfoldable pub count_at : ℕ → ℕ → ℕ → ℕ
count_at lcount step cur = if ltb lcount (cur + step) then lcount - cur else step

count_at_lem :
    (lcount step cur : ℕ)
    → 0 < step
    → cur < lcount
    → (0 < count_at lcount step cur)
      × (count_at lcount step cur ≤ step)
      × (cur + count_at lcount step cur ≤ lcount)
unfolding count_at
count_at_lem lcount step cur p c = (ground arith, ground arith, ground arith)

-- The parts that the loop copies.
unfoldable pub chunks : ℕ → ℕ → ℕ → ℕ → ℕ → List (ℕ × ℕ)
unfolding count_at
chunks zero lcount step cur start = []
chunks (suc fuel) lcount step cur start =
    let count = count_at lcount step cur in
    let rest = chunks fuel lcount step (cur + count) (start + count) in
    if ltb cur lcount then (start, count) ∷ rest else []

-- They tile what is left of the dimension.
pub chunks-Tiles :
    (fuel lcount step cur start end : ℕ)
    → 0 < step
    → cur ≤ lcount
    → lcount - cur < fuel
    → end ≡ start + (lcount - cur)
    → Tiles step start end (chunks fuel lcount step cur start)
unfolding chunks
chunks-Tiles zero lcount step cur start end p c f e = absurd (omega arith)
chunks-Tiles (suc fuel) lcount step cur start end p c f e = elim (Bool-cases (ltb cur lcount)) [
  | inl more ↦
      let (some_part, at_most, inside) = count_at_lem lcount step cur p (ltb→lt cur lcount more) in
      rw more (
        refl,
        some_part,
        at_most,
        chunks-Tiles fuel lcount step (cur + count_at lcount step cur)
            (start + count_at lcount step cur) end p inside (omega arith) (omega arith),
      )
  | inr done ↦ rw done (ground arith)
]

-- The sum of the source does not wrap around.
count_same :
    (lcount step cur : ℕ)
    → cur + step < word
    → (if ltb lcount ((cur + step) % word) then lcount - cur else step) ≡ count_at lcount step cur
unfolding count_at
count_same lcount step cur h =
    let small : (cur + step) % word ≡ cur + step = omega arith in rw small refl

module _ {O S : Type 0} (get_vars : NcGetVarInp → Result O)
    (put_vars : List LRange → O → S → Option S) where
  -- The loop is the moves of the parts in turn: nothing wraps around, and the fuel is enough.
  pub transfer_loop-move_all :
      (fuel : ℕ) (t : NcType) (ncid : ℕ) (varid : ℤ) (d : LRange) (ds : List LRange)
      (step cur start : ℕ) (s : S)
      → 0 < step
      → cur ≤ d.lcount
      → d.lcount - cur < fuel
      → d.lcount + step < word
      → start + (d.lcount - cur) < word
      → transfer_loop get_vars put_vars fuel t ncid varid d ds step cur start s
        ≡ move_all
            (move_part get_vars put_vars t ncid varid d ds)
            (chunks fuel d.lcount step cur start)
            s
  unfolding transfer_loop move_all chunks move_part
  transfer_loop-move_all zero t ncid varid d ds step cur start s p c f w1 w2 = absurd (omega arith)
  transfer_loop-move_all (suc fuel) t ncid varid d ds step cur start s p c f w1 w2 =
      elim (Bool-cases (ltb cur d.lcount)) [
        | inl more ↦
            let (some_part, at_most, inside) =
              count_at_lem d.lcount step cur p (ltb→lt cur d.lcount more) in
            let same_count : (if ltb d.lcount ((cur + step) % word) then d.lcount - cur else step)
                ≡ count_at d.lcount step cur =
              count_same d.lcount step cur (omega arith) in
            let no_wrap1 : (cur + count_at d.lcount step cur) % word
                ≡ cur + count_at d.lcount step cur =
              omega arith in
            let no_wrap2 : (start + count_at d.lcount step cur) % word
                ≡ start + count_at d.lcount step cur =
              omega arith in
            rw (more, same_count, no_wrap1, no_wrap2)
              (>>=_cong
                (move_part get_vars put_vars t ncid varid d ds start (count_at d.lcount step cur) s)
                (λ s'.
                  transfer_loop-move_all fuel t ncid varid d ds step
                    (cur + count_at d.lcount step cur) (start + count_at d.lcount step cur) s' p
                    inside (omega arith) w1 (omega arith)))
        | inr done ↦ rw done refl
      ]

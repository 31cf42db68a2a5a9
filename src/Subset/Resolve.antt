-- ===== src/Subset/Resolve.antt =====
-- The search of resolveSubsetVar (api/lib/rcNcInq.cpp) for the first and the last position of a subset.
use irods_netcdf.Base.{
  ℕ, suc, ◌+◌, ◌-◌, ◌≡◌, refl, Bool, true, false, List, [], ◌∷◌, ◌++◌, ℤ, pos, arith, length, ◌∙◌,
  ◌<ℤ◌, append-nil, ap, subst,
}
use irods_netcdf.Subset.{minus_one, resolve_loop}

module _ {V : Type 0} (ge_start le_end : V → Bool) where
  -- Values before the subset, in it and after it.
  abbrev pub Below : List V → Type 0
  Below [] = Unit {0}
  Below (v ∷ vs) = (ge_start v ≡ false) × (le_end v ≡ true) × Below vs

  abbrev pub Inside : List V → Type 0
  Inside [] = Unit {0}
  Inside (v ∷ vs) = (ge_start v ≡ true) × (le_end v ≡ true) × Inside vs

  -- It matters only for the first of them.
  abbrev pub Above : List V → Type 0
  Above [] = Unit {0}
  Above (v ∷ vs) = (ge_start v ≡ true) × (le_end v ≡ false)

  loop-Above :
      (vs : List V) (k start : ℕ) (end : ℤ)
      → Above vs
      → resolve_loop ge_start le_end k (pos start) end vs ≡ (pos start, end)
  unfolding resolve_loop
  loop-Above [] k start end a = refl
  loop-Above (v ∷ vs) k start end (g, l) = rw (l) refl

  loop-Inside :
      (xs above : List V) (k j start : ℕ)
      → Inside xs
      → Above above
      → k ≡ j + 1
      → resolve_loop ge_start le_end k (pos start) (pos j) (xs ++ above)
        ≡ (pos start, pos (j + length xs))
  unfolding resolve_loop
  loop-Inside [] above k j start i a e = ground (arith, loop-Above above k start (pos j) a)
  loop-Inside (x ∷ xs) above k j start (g, l, i) a e =
      rw (l) (ground (arith, loop-Inside xs above (k + 1) k start i a))

  loop-Inside_at :
      (v : V) (inside above : List V) (j : ℕ) (end : ℤ)
      → Inside (v ∷ inside)
      → Above above
      → resolve_loop ge_start le_end j minus_one end (v ∷ inside ++ above)
        ≡ (pos j, pos (j + length inside))
  unfolding resolve_loop
  loop-Inside_at v inside above j end (g, l, i) a =
      rw (g, l) (loop-Inside inside above (j + 1) j j i a refl)

  -- Where the values below the start leave the search.
  last_below : ℕ → ℤ → List V → ℤ
  last_below k end [] = end
  last_below k end (v ∷ vs) = last_below (k + 1) (pos k) vs

  loop-Below :
      (below rest : List V) (k j : ℕ) (end : ℤ)
      → Below below
      → j ≡ k + length below
      → resolve_loop ge_start le_end k minus_one end (below ++ rest)
        ≡ resolve_loop ge_start le_end j minus_one (last_below k end below) rest
  unfolding resolve_loop last_below
  loop-Below [] rest k j end b e = ground arith
  loop-Below (x ∷ xs) rest k j end (g, l, b) e =
      rw (g, l) (ground (arith, loop-Below xs rest (k + 1) j (pos k) b))

  last_below-snoc :
      (below : List V) (k n : ℕ) (end : ℤ)
      → length below ≡ suc n
      → last_below k end below ≡ pos (k + n)
  unfolding last_below
  last_below-snoc (x ∷ []) k n end l = ground arith
  last_below-snoc (x ∷ y ∷ xs) k n end l =
      ground (arith, last_below-snoc (y ∷ xs) (k + 1) (n - 1) (pos k) (omega arith))
  last_below-snoc [] k n end l = absurd (omega arith)

  last_below-lt :
      (below : List V) (k j : ℕ) (end : ℤ)
      → end <ℤ pos k
      → j ≡ k + length below
      → last_below k end below <ℤ pos j
  unfolding last_below
  last_below-lt [] k j end h e = ground arith
  last_below-lt (x ∷ xs) k j end h e =
      last_below-lt xs (k + 1) j (pos k) (omega arith) (omega arith)

  -- Over the values of a dimension in ascending order, from those before the subset over those in it,
  -- of which there is one, to those after it, the search gives the first and the last position of
  -- those in the subset.
  pub resolve_loop-Inside :
      (below inside above : List V) (v : V)
      → Below below
      → Inside (v ∷ inside)
      → Above above
      → resolve_loop ge_start le_end 0 minus_one minus_one (below ++ (v ∷ inside ++ above))
        ≡ (pos (length below), pos (length below + length inside))
  unfolding resolve_loop
  resolve_loop-Inside below inside above v b (g, l, i) a =
      loop-Below below (v ∷ inside ++ above) 0 (length below) minus_one b (omega arith)
      ∙ loop-Inside_at v inside above (length below) (last_below 0 minus_one below) (g, l, i) a

  -- Where every value is before the subset, the search leaves -1 as its start, and the last position
  -- as its end.
  pub resolve_loop-Below :
      (below : List V) (n : ℕ)
      → Below below
      → length below ≡ suc n
      → resolve_loop ge_start le_end 0 minus_one minus_one below ≡ (minus_one, pos n)
  unfolding resolve_loop
  resolve_loop-Below below n b l =
      subst
        (λ (t : List V). resolve_loop ge_start le_end 0 minus_one minus_one t ≡ (minus_one, pos n))
        (append-nil below)
        (loop-Below below [] 0 (length below) minus_one b (omega arith)
          ∙ ap (λ (e : ℤ). (minus_one, e)) (ground (arith, last_below-snoc below 0 n minus_one l)))

  -- Where no value is in the subset and one is after it, the search gives a start after its end.
  pub resolve_loop-Above :
      (below above : List V) (v : V)
      → Below below
      → Above (v ∷ above)
      → (k : ℕ) × (end : ℤ) × (resolve_loop ge_start le_end 0 minus_one minus_one
            (below ++ v ∷ above)
          ≡ (pos k, end))
        × end <ℤ pos k
  unfolding resolve_loop
  resolve_loop-Above below above v b (g, l) = (
    length below,
    last_below 0 minus_one below,
    loop-Below below (v ∷ above) 0 (length below) minus_one b (omega arith) ∙ rw (g, l) refl,
    last_below-lt below 0 (length below) minus_one (omega arith) (omega arith),
  )

-- ===== src/Base/Slices.antt =====
-- Slices of two lists that follow each other.
use Prim.Native.Nat.{ℕ, zero, suc, ◌+◌, ◌-◌, ◌≤◌}
use mathlib.Core.Path.{◌≡◌, refl, ap, ◌∙◌}
use mathlib.Core.List.{List, [], ◌∷◌, ◌++◌}
use native.Mathlib.Omega.{arith}
use irods_netcdf.Base.Lists.{length, take, drop}

module _ {ℓ} {A : Type ℓ} where
  pub drop-append_past :
      (k : ℕ) (xs ys : List A) → length xs ≤ k → drop k (xs ++ ys) ≡ drop (k - length xs) ys
  drop-append_past k [] ys h = ap (λ n. drop n ys) (omega arith)
  drop-append_past zero (x ∷ xs) ys h = absurd (omega arith)
  drop-append_past (suc k) (x ∷ xs) ys h =
      drop-append_past k xs ys (omega arith) ∙ ap (λ n. drop n ys) (omega arith)

  pub take-append_within : (c : ℕ) (xs ys : List A) → c ≤ length xs → take c (xs ++ ys) ≡ take c xs
  take-append_within zero xs ys h = refl
  take-append_within (suc c) [] ys h = absurd (omega arith)
  take-append_within (suc c) (x ∷ xs) ys h = ap (◌∷◌ x) (take-append_within c xs ys (omega arith))

  pub slice-append_within :
      (k c : ℕ) (xs ys : List A)
      → k + c ≤ length xs
      → take c (drop k (xs ++ ys)) ≡ take c (drop k xs)
  slice-append_within zero c xs ys h = take-append_within c xs ys (omega arith)
  slice-append_within (suc k) zero [] ys h = refl
  slice-append_within (suc k) (suc c) [] ys h = absurd (omega arith)
  slice-append_within (suc k) c (x ∷ xs) ys h = slice-append_within k c xs ys (omega arith)

  pub take-append_over :
      (c : ℕ) (xs ys : List A)
      → length xs ≤ c
      → take c (xs ++ ys) ≡ take (length xs) xs ++ take (c - length xs) ys
  take-append_over c [] ys h = ap (λ n. take n ys) (omega arith)
  take-append_over zero (x ∷ xs) ys h = absurd (omega arith)
  take-append_over (suc c) (x ∷ xs) ys h = ap (◌∷◌ x) (
      take-append_over c xs ys (omega arith)
      ∙ ap (λ n. take (length xs) xs ++ take n ys) (omega arith))

  pub slice-append_over :
      (k c : ℕ) (xs ys : List A)
      → k ≤ length xs
      → length xs ≤ k + c
      → take c (drop k (xs ++ ys))
        ≡ take (length xs - k) (drop k xs) ++ take (c - (length xs - k)) ys
  slice-append_over zero c xs ys h l =
      take-append_over c xs ys (omega arith) ∙ ap (λ n. take n xs ++ take (c - n) ys) (omega arith)
  slice-append_over (suc k) c [] ys h l = absurd (omega arith)
  slice-append_over (suc k) c (x ∷ xs) ys h l =
      slice-append_over k c xs ys (omega arith) (omega arith)
      ∙ ap (λ n. take n (drop k xs) ++ take (c - n) ys) (omega arith)

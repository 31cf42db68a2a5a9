-- ===== src/Vars/Size.antt =====
-- getSizeForGetVars: what it accepts, and the number of elements that it counts.
use native.Mathlib.Nat.{
  mul_assoc, mod-add-div', mul-pos, mul-le-mul, mul-lt-mul_of_pos_right, mul-lt-mul_of_pos_left,
  mul-le-mul_left, mul-le-mul_right, div-le_self, div-lt_self, div-one,
}
use irods_netcdf.Base.{
  ℕ, zero, suc, ◌+◌, ◌-◌, ◌*◌, ◌/◌, ◌%◌, ◌≤◌, ◌<◌, ◌≡◌, refl, ap, ◌∙◌, ◌⊎◌, inl, inr, Bool, true,
  false, ◌&&◌, List, [], ◌∷◌, map, ℤ, pos, negsuc, arith, if◌then◌else◌,
}
use irods_netcdf.Status.{ok, err, code, netcdf_var_count_out_of_range}
use irods_netcdf.Vars.{DimRange, int_mod, fix_stride, size_loop, get_size_for_get_vars}

abbrev pub is_positive : ℤ → Bool
is_positive (pos zero) = false
is_positive (pos (suc n)) = true
is_positive (negsuc n) = false

unfoldable pub all_positive : List DimRange → Bool
all_positive [] = true
all_positive (d ∷ ds) = is_positive d.count && all_positive ds

-- The indices 0, s, 2s, … below c.
abbrev pub stepped : ℕ → ℕ → ℕ
stepped c s = (c - 1) / s + 1

abbrev pub count_of : ℤ → ℕ
count_of (pos n) = n
count_of (negsuc n) = 0

-- The elements of a request that keeps its strides.
unfoldable pub strided_size : List DimRange → ℕ
strided_size [] = 1
strided_size (d ∷ ds) = stepped (count_of d.count) (fix_stride d.stride) * strided_size ds

-- The elements of a request without strides.
unfoldable pub count_size : List DimRange → ℕ
count_size [] = 1
count_size (d ∷ ds) = count_of d.count * count_size ds

abbrev pub fix_dim : DimRange → DimRange
fix_dim d = record d { stride = pos (fix_stride d.stride) }

mul_mod : (a b : ℕ) → (a % int_mod * b) % int_mod ≡ (a * b) % int_mod
mul_mod a b = omega (arith, ap (λ (t : ℕ). t * b) (mod-add-div' a int_mod))

size_loop_lem :
    (len : ℕ) (ds : List DimRange)
    → len < int_mod
    → size_loop len ds ≡ (
        if all_positive ds
        then ok ((len * strided_size ds) % int_mod, map fix_dim ds)
        else err (code netcdf_var_count_out_of_range))
unfolding size_loop all_positive strided_size
size_loop_lem len [] h = ap (λ n. ok (n, [])) (omega arith)
size_loop_lem len (d ∷ ds) h =
    let next = (len * stepped (count_of d.count) (fix_stride d.stride)) % int_mod in
    let size : next * strided_size ds % int_mod
        ≡ len * (stepped (count_of d.count) (fix_stride d.stride) * strided_size ds) % int_mod =
      mul_mod (len * stepped (count_of d.count) (fix_stride d.stride)) (strided_size ds)
      ∙ ap (λ (n : ℕ). n % int_mod)
          (mul_assoc len (stepped (count_of d.count) (fix_stride d.stride)) (strided_size ds)) in
    ground (arith, size_loop_lem next ds (omega arith), size)

-- getSizeForGetVars accepts a request exactly if every count is positive; then it returns the number
-- of elements at the given strides, modulo 2 ^ 32, and sets every stride that is not positive to 1.
pub get_size_for_get_vars_lem :
    (ds : List DimRange)
    → get_size_for_get_vars ds ≡ (
        if all_positive ds
        then ok (strided_size ds % int_mod, map fix_dim ds)
        else err (code netcdf_var_count_out_of_range))
unfolding get_size_for_get_vars
get_size_for_get_vars_lem ds =
    let one : (1 * strided_size ds) % int_mod ≡ strided_size ds % int_mod = omega arith in
    ground (arith, size_loop_lem 1 ds (omega arith), one)

-- A dimension has no more indices with a stride than without.
stepped-le : (c s : ℕ) → 0 < c → 0 < s → stepped c s ≤ c
stepped-le c s hc hs = omega (arith, div-le_self (c - 1) s)

stepped-lt : (c s : ℕ) → 1 < c → 1 < s → stepped c s < c
stepped-lt c s hc hs = let h : 0 < c - 1 = omega arith in omega (arith, div-lt_self h hs)

fix_stride-pos : (z : ℤ) → 0 < fix_stride z
unfolding fix_stride
fix_stride-pos (pos zero) = omega arith
fix_stride-pos (pos (suc n)) = omega arith
fix_stride-pos (negsuc n) = omega arith

-- Some dimension is read at a stride: it has more than one index, and its stride is above 1.
abbrev pub SomeStride : List DimRange → Type 0
SomeStride [] = ⊥
SomeStride (d ∷ ds) = ((1 < count_of d.count) × (1 < fix_stride d.stride)) ⊎ SomeStride ds

abbrev pub NoStride : List DimRange → Type 0
NoStride [] = Unit {0}
NoStride (d ∷ ds) = (fix_stride d.stride ≡ 1) × NoStride ds

pub strided_size-pos : (ds : List DimRange) → 0 < strided_size ds
unfolding strided_size
strided_size-pos [] = omega arith
strided_size-pos (d ∷ ds) = mul-pos (omega arith) (strided_size-pos ds)

pub strided_size-le-count_size :
    (ds : List DimRange) → all_positive ds ≡ true → strided_size ds ≤ count_size ds
unfolding strided_size count_size all_positive
strided_size-le-count_size [] h = omega arith
strided_size-le-count_size (d ∷ ds) h =
    mul-le-mul
      (stepped-le (count_of d.count) (fix_stride d.stride) (ground arith) (fix_stride-pos d.stride))
      (strided_size-le-count_size ds (ground arith))

pub strided_size-lt-count_size :
    (ds : List DimRange) → all_positive ds ≡ true → SomeStride ds → strided_size ds < count_size ds
unfolding strided_size count_size all_positive
strided_size-lt-count_size [] h s = absurd s
strided_size-lt-count_size (d ∷ ds) h (inl (c, s)) = omega (
  arith,
  mul-lt-mul_of_pos_right (stepped-lt (count_of d.count) (fix_stride d.stride) c s)
      (strided_size-pos ds),
  mul-le-mul_left (count_of d.count) (strided_size-le-count_size ds (ground arith)),
)
strided_size-lt-count_size (d ∷ ds) h (inr s) =
    let positive : 0 < stepped (count_of d.count) (fix_stride d.stride) = omega arith in
    omega (
      arith,
      mul-lt-mul_of_pos_left (strided_size-lt-count_size ds (ground arith) s) positive,
      mul-le-mul_right (count_size ds) (
          stepped-le (count_of d.count) (fix_stride d.stride) (ground arith)
            (fix_stride-pos d.stride)),
    )

pub strided_size-eq-count_size :
    (ds : List DimRange) → all_positive ds ≡ true → NoStride ds → strided_size ds ≡ count_size ds
unfolding strided_size count_size all_positive
strided_size-eq-count_size [] h n = refl
strided_size-eq-count_size (d ∷ ds) h n =
    let whole : stepped (count_of d.count) (fix_stride d.stride) ≡ count_of d.count =
      rw n.0 (ground (arith, div-one (count_of d.count - 1))) in
    rw (whole, strided_size-eq-count_size ds (ground arith) n.1)

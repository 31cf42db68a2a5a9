-- ===== src/Subset/Parse.antt =====
-- Subsets from a text: parseNcSubset, parseSubsetStr and parseVarStrForSubset of api/lib/rcNcInq.cpp.
use irods_netcdf.Base.{
  to_int, signed, min, take, ◌<◌, ◌^◌, ◌-◌, ◌%◌, ltb, true, ℤ, ap, ℕ, zero, suc, ◌+◌, ◌≤◌, ◌≡◌,
  refl, false, Option, none, some, List, [], ◌∷◌, ◌++◌, pos, arith, ◌==◌, if◌then◌else◌, atoi,
  decimal, starts_digit, atoi-decimal, starts_digit-decimal, length, set?, append-nil, isdigit,
  AllDigits, decimal-AllDigits,
}
use irods_netcdf.Status.{Result, ok, err, ◌>>=◌, deref, code, user_input_format_err}
use irods_netcdf.Subset.{NcSubset}

abbrev in_front : ℕ → Option (List ℕ × List ℕ) → Option (List ℕ × List ℕ)
in_front x none = none
in_front x (some r) = some (x ∷ r.0, r.1)

-- strchr: what stands before the first c, and what stands behind it.
unfoldable pub split_at : ℕ → List ℕ → Option (List ℕ × List ℕ)
split_at c [] = none
split_at c (x ∷ xs) =
    let rest = in_front x (split_at c xs) in if (x == c) then some ([], xs) else rest

abbrev format_err : {A : Type 0} → Result A
format_err = err (code user_input_format_err)

abbrev found : Option (List ℕ × List ℕ) → Result (List ℕ × List ℕ)
found none = format_err
found (some r) = ok r

-- A number that ends at c: its text, and what stands behind c.
unfoldable pub number_field : ℕ → List ℕ → Result (List ℕ × List ℕ)
unfolding split_at
number_field c text =
    let field = found (split_at c text) in if starts_digit text then field else format_err

-- atoi of glibc on a number without a sign: strtol, which stops at the largest long, as an int.
abbrev pub int_of_text : List ℕ → ℤ
int_of_text text = to_int (pos (min (atoi text) 9223372036854775807))

-- NAME_LEN
abbrev pub name_len : ℕ
name_len = 64

-- parseNcSubset, on the text in subsetVarName; rstrcpy keeps a text within NAME_LEN characters.
unfoldable pub parse_nc_subset : List ℕ → Result NcSubset
unfolding split_at number_field to_int
parse_nc_subset text = found (split_at b'[' text) >>= λ name. number_field b'%' name.1 >>= λ start.
    number_field b'%' start.1 >>= λ stride. number_field b']' stride.1 >>= λ end. ok (record {
      subset_var_name = name.0;
      start = int_of_text start.0;
      stride = int_of_text stride.0;
      end = int_of_text end.0;
      start_str = take (name_len - 1) start.0;
      end_str = take (name_len - 1) end.0;
    })

-- MAX_NUM_VAR
abbrev pub max_num_var : ℕ
max_num_var = 64

-- A turn of the loop of parseSubsetStr, on what getNextEleInStr gives.
unfoldable pub next_subset :
    (List ℕ → Result (List NcSubset)) → Option (List ℕ × List ℕ) → Result (List NcSubset)
unfolding parse_nc_subset
next_subset others none = ok []
next_subset others (some r) = parse_nc_subset r.0 >>= λ s. others r.1 >>= λ ss. ok (s ∷ ss)

-- getNextEleInStr is a function of iRODS: the next element and the text behind it, or none.
module _ (next_ele : List ℕ → Option (List ℕ × List ℕ)) where
  -- The loop of parseSubsetStr, with `left` the subsets that there is room for.
  unfoldable pub subset_loop : ℕ → List ℕ → Result (List NcSubset)
  unfolding next_subset
  subset_loop zero text = ok []
  subset_loop (suc left) text = next_subset (subset_loop left) (next_ele text)

  -- parseSubsetStr
  unfoldable pub parse_subset_str : List ℕ → Result (List NcSubset)
  unfolding subset_loop
  parse_subset_str = subset_loop max_num_var

  -- The loop of parseVarStrForSubset: the name i is written to the slot behind slot i. The last of
  -- MAX_NUM_VAR names is written past the array.
  unfoldable pub var_loop : ℕ → ℕ → List ℕ → List (List ℕ) → Result (ℕ × List (List ℕ))
  var_loop zero i text var_name = ok (i, var_name)
  var_loop (suc left) i text var_name = elim (next_ele text) [
    | none ↦ ok (i, var_name)
    | some r ↦
        deref (set? var_name (i + 1) r.0) >>= λ var_name'. var_loop left (i + 1) r.1 var_name'
  ]

  -- parseVarStrForSubset: numVar and the array varName.
  unfoldable pub parse_var_str_for_subset : List ℕ → List (List ℕ) → Result (ℕ × List (List ℕ))
  unfolding var_loop
  parse_var_str_for_subset = var_loop max_num_var 0

-- The text of a subset: name[start%stride%end], and what follows it.
unfoldable pub subset_text : List ℕ → ℕ → ℕ → ℕ → List ℕ → List ℕ
subset_text name start stride end rest =
    name
    ++ (b'['
        ∷ (decimal start ++ (b'%' ∷ (decimal stride ++ (b'%' ∷ (decimal end ++ (b']' ∷ rest)))))))

abbrev pub Free : ℕ → List ℕ → Type 0
Free c [] = Unit {0}
Free c (x ∷ xs) = ((x == c) ≡ false) × Free c xs

split_at-Free :
    (c : ℕ) (front rest : List ℕ)
    → Free c front
    → split_at c (front ++ (c ∷ rest)) ≡ some (front, rest)
unfolding split_at
split_at-Free c [] rest h = ground arith
split_at-Free c (x ∷ xs) rest (e, h) = rw (e, split_at-Free c xs rest h) refl

digits-Free : (c : ℕ) (xs : List ℕ) → isdigit c ≡ false → AllDigits xs → Free c xs
digits-Free c [] n h = tt
digits-Free c (x ∷ xs) n (d, h) = (ground arith, digits-Free c xs n h)

number_field-decimal :
    (c n : ℕ) (rest : List ℕ)
    → isdigit c ≡ false
    → number_field c (decimal n ++ (c ∷ rest)) ≡ ok (decimal n, rest)
unfolding number_field
number_field-decimal c n rest h =
    rw
      (
        starts_digit-decimal n (c ∷ rest),
        split_at-Free c (decimal n) rest (digits-Free c (decimal n) h (decimal-AllDigits n)),
      )
      refl

take-all : (n : ℕ) (xs : List ℕ) → length xs ≤ n → take n xs ≡ xs
take-all zero [] h = refl
take-all zero (x ∷ xs) h = absurd (omega arith)
take-all (suc n) [] h = refl
take-all (suc n) (x ∷ xs) h = ap (◌∷◌ x) (take-all n xs (omega arith))

int_of_text-decimal : (n : ℕ) → n < 2 ^ 31 → int_of_text (decimal n) ≡ pos n
unfolding to_int
int_of_text-decimal n h =
    let reads : atoi (decimal n) ≡ n = rw append-nil at (atoi-decimal n [] tt) in
    let within : min n 9223372036854775807 ≡ n = omega arith in
    let low : n % 4294967296 ≡ n = omega arith in
    let positive : ltb n 2147483648 ≡ true = ground arith in
    rw (reads, within, low) (unfold signed in rw positive refl)

-- parseNcSubset reads back the name, the start, the stride and the end of a subset whose name has no
-- bracket and whose numbers are below 2^31, and keeps the texts of the start and the end, where these
-- have fewer than NAME_LEN characters.
pub parse_nc_subset-subset_text :
    (name : List ℕ) (start stride end : ℕ) (rest : List ℕ)
    → Free b'[' name
    → start < 2 ^ 31
    → stride < 2 ^ 31
    → end < 2 ^ 31
    → length (decimal start) < name_len
    → length (decimal end) < name_len
    → parse_nc_subset (subset_text name start stride end rest)
      ≡ ok (record {
        subset_var_name = name;
        start = pos start;
        stride = pos stride;
        end = pos end;
        start_str = decimal start;
        end_str = decimal end;
      })
unfolding parse_nc_subset subset_text
parse_nc_subset-subset_text name start stride end rest h s_lt d_lt e_lt s_len e_len =
    rw
      (
        split_at-Free b'[' name
            (decimal start ++ (b'%' ∷ (decimal stride ++ (b'%' ∷ (decimal end ++ (b']' ∷ rest))))))
            h,
        number_field-decimal b'%' start (decimal stride ++ (b'%' ∷ (decimal end ++ (b']' ∷ rest))))
            refl,
        number_field-decimal b'%' stride (decimal end ++ (b']' ∷ rest)) refl,
        number_field-decimal b']' end rest refl,
        int_of_text-decimal start s_lt,
        int_of_text-decimal stride d_lt,
        int_of_text-decimal end e_lt,
        take-all (name_len - 1) (decimal start) (omega arith),
        take-all (name_len - 1) (decimal end) (omega arith),
      )
      refl

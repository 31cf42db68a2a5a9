-- ===== src/Agg/Order.antt =====
-- What the order of the files gives: it survives an insertion, which adds one file and its length.
use irods_netcdf.Base.{
  ℕ, zero, suc, ◌+◌, ◌≤◌, ◌<◌, ◌≡◌, refl, sym, ap, ◌∙◌, inl, inr, true, false, some, List, [], ◌∷◌,
  ◌++◌, arith, ltb, ◌==◌, Bool-cases, length, length-append, append_assoc, append-nil,
}
use mathlib.Core.List.{Perm}
use mathlib.Core.List.Perm
use irods_netcdf.Status.{ok, ◌>>=◌}
use irods_netcdf.Agg.{
  NcAggElement, NcAggInfo, comes_before, sum_loop, sum_agg_element_arraylen, add_nc_agg_element,
}
use irods_netcdf.Agg.Shift.{insert_sorted, read-append}
use irods_netcdf.Agg.Insert.{Represents, add_nc_agg_element-Represents}

-- No file of the list goes before e.
abbrev pub NoneBefore : NcAggElement → List NcAggElement → Type 0
NoneBefore e [] = Unit {0}
NoneBefore e (x ∷ xs) = (comes_before x e ≡ false) × NoneBefore e xs

abbrev pub IsSorted : List NcAggElement → Type 0
IsSorted [] = Unit {0}
IsSorted (x ∷ xs) = NoneBefore x xs × IsSorted xs

comes_before_asym : (a b : NcAggElement) → comes_before a b ≡ true → comes_before b a ≡ false
unfolding comes_before
comes_before_asym a b h = ground arith

not_before_trans :
    (a b c : NcAggElement)
    → comes_before a b ≡ true
    → comes_before c b ≡ false
    → comes_before c a ≡ false
unfolding comes_before
not_before_trans a b c h k = ground arith

NoneBefore-trans :
    (e x : NcAggElement) (xs : List NcAggElement)
    → comes_before e x ≡ true
    → NoneBefore x xs
    → NoneBefore e xs
NoneBefore-trans e x [] h n = tt
NoneBefore-trans e x (y ∷ ys) h n = (not_before_trans e x y h n.0, NoneBefore-trans e x ys h n.1)

NoneBefore-insert_sorted :
    (e x : NcAggElement) (xs : List NcAggElement)
    → comes_before e x ≡ false
    → NoneBefore x xs
    → NoneBefore x (insert_sorted e xs)
unfolding insert_sorted
NoneBefore-insert_sorted e x [] h n = (h, tt)
NoneBefore-insert_sorted e x (y ∷ ys) h n = ground (arith, NoneBefore-insert_sorted e x ys h n.1)

pub insert_sorted-IsSorted :
    (e : NcAggElement) (xs : List NcAggElement) → IsSorted xs → IsSorted (insert_sorted e xs)
unfolding insert_sorted
insert_sorted-IsSorted e [] s = (tt, tt)
insert_sorted-IsSorted e (x ∷ xs) s = elim (Bool-cases (comes_before e x)) [
  | inl b ↦ rw b ((comes_before_asym e x b, NoneBefore-trans e x xs b s.0), s)
  | inr b ↦ rw b (NoneBefore-insert_sorted e x xs b s.0, insert_sorted-IsSorted e xs s.1)
]

pub insert_sorted-perm :
    (e : NcAggElement) (xs : List NcAggElement) → Perm (insert_sorted e xs) (e ∷ xs)
unfolding insert_sorted
insert_sorted-perm e [] = Perm.refl (e ∷ [])
insert_sorted-perm e (x ∷ xs) = elim (Bool-cases (comes_before e x)) [
  | inl b ↦ rw b (Perm.refl (e ∷ x ∷ xs))
  | inr b ↦ rw b (Perm.trans (Perm.cons x (insert_sorted-perm e xs)) (Perm.swap e x xs))
]

-- The length of the series.
abbrev pub total : List NcAggElement → ℕ
total [] = 0
total (x ∷ xs) = x.arraylen + total xs

total-insert_sorted :
    (e : NcAggElement) (xs : List NcAggElement) → total (insert_sorted e xs) ≡ e.arraylen + total xs
unfolding insert_sorted
total-insert_sorted e [] = refl
total-insert_sorted e (x ∷ xs) = ground (arith, total-insert_sorted e xs)

sum_loop-append :
    (n acc : ℕ) (pre xs rest : List NcAggElement) (i : ℕ)
    → length pre ≡ i
    → length xs ≡ n
    → sum_loop n i acc (pre ++ (xs ++ rest)) ≡ ok (acc + total xs)
unfolding sum_loop
sum_loop-append zero acc pre [] rest i hi hn = ground arith
sum_loop-append zero acc pre (x ∷ xs) rest i hi hn = absurd (omega arith)
sum_loop-append (suc n) acc pre [] rest i hi hn = absurd (omega arith)
sum_loop-append (suc n) acc pre (x ∷ xs) rest i hi hn =
    rw (read-append x pre (xs ++ rest) i hi, regroup)
      (sum_loop-append n (acc + x.arraylen) (pre ++ x ∷ []) xs rest (i + 1)
          (omega (arith, length-append pre (x ∷ []))) (omega arith)
        ∙ ap ok (omega arith))
  where
    regroup : pre ++ x ∷ (xs ++ rest) ≡ (pre ++ x ∷ []) ++ (xs ++ rest)
    regroup = simp append_assoc

module _ (ptr_array_malloc_len : ℕ) where
  -- sumAggElementArraylen sums the whole series for every index up to the number of files.
  pub sum_agg_element_arraylen_lem :
      (info : NcAggInfo) (xs : List NcAggElement) (agg_element_inx : ℕ)
      → Represents ptr_array_malloc_len info xs
      → agg_element_inx ≤ info.num_files
      → sum_agg_element_arraylen info agg_element_inx ≡ ok (total xs)
  unfolding sum_agg_element_arraylen
  sum_agg_element_arraylen_lem info xs inx h le = elim (Bool-cases (info.num_files == 0)) [
    | inl z ↦ rw (in_range, z) (total_none xs (ground (arith, h.counted)))
    | inr nz ↦ elim h.stored [
      | inl (e, _) ↦ absurd (ground (arith, h.counted ∙ ap length e))
      | inr (spare, e, _) ↦
          rw (in_range, nz, e)
            (sum_loop-append info.num_files 0 [] xs spare 0 refl (sym h.counted)
              ∙ ap ok (omega arith))
    ]
  ]
    where
      in_range : ltb info.num_files inx ≡ false
      in_range = ground arith

      total_none : (ys : List NcAggElement) → length ys ≡ 0 → ok 0 ≡ ok (total ys)
      total_none [] z = refl
      total_none (y ∷ ys) z = absurd (omega arith)

  -- Adding a file to a description adds its time steps to the sum of the whole series.
  pub sum_agg_element_arraylen-add :
      (e : NcAggElement) (info : NcAggInfo) (xs : List NcAggElement)
      → 0 < ptr_array_malloc_len
      → Represents ptr_array_malloc_len info xs
      → (info' : NcAggInfo) × (add_nc_agg_element ptr_array_malloc_len (some e) (some info)
          ≡ ok info')
        × (sum_agg_element_arraylen info' info'.num_files
            ≡ (sum_agg_element_arraylen info info.num_files >>= λ n. ok (e.arraylen + n)))
  sum_agg_element_arraylen-add e info xs positive h =
      let (info', added, h', _) =
        add_nc_agg_element-Represents ptr_array_malloc_len e info xs positive h in
      (
        info',
        added,
        rw
            (
              sum_agg_element_arraylen_lem info' _ info'.num_files h' (omega arith),
              sum_agg_element_arraylen_lem info xs info.num_files h (omega arith),
            )
            (ap ok (total-insert_sorted e xs)),
      )

-- A description that holds its files and no spare room.
pub sum_agg_element_arraylen-total :
    (name : List ℕ) (files : List NcAggElement)
    → sum_agg_element_arraylen
        (record { num_files = length files; nc_object_name = name; nc_agg_element = some files })
        (length files)
      ≡ ok (total files)
unfolding sum_agg_element_arraylen
sum_agg_element_arraylen-total name [] = refl
sum_agg_element_arraylen-total name (x ∷ xs) =
    let in_range : ltb (suc (length xs)) (suc (length xs)) ≡ false = ground arith in
    let some_files : (suc (length xs) == 0) ≡ false = ground arith in
    let whole : x ∷ xs ≡ [] ++ ((x ∷ xs) ++ []) = sym (append-nil (x ∷ xs)) in
    rw in_range (
      rw some_files (
        ap (sum_loop (suc (length xs)) 0 0) whole
        ∙ sum_loop-append (suc (length xs)) 0 [] (x ∷ xs) [] 0 refl refl
        ∙ ap ok (omega arith)))

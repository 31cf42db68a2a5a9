-- ===== src/Agg/Shift.antt =====
-- The insertion loop of addNcAggElement on its array: what is before the place of the element stays,
-- and what is behind it moves one place up.
use irods_netcdf.Base.{
  ℕ, zero, suc, ◌+◌, ◌≡◌, refl, inl, inr, List, [], ◌∷◌, ◌++◌, append_assoc, arith, if◌then◌else◌,
  Bool-cases, length, length-append, get_elem?-append, set?-append, snoc_view,
}
use irods_netcdf.Status.{ok, ◌>>=◌}
use irods_netcdf.Agg.{NcAggElement, read, write, comes_before, copy_into, shift_up, insert_loop}

-- What the array stands for: insertion into a list that is sorted by time.
unfoldable pub insert_sorted : NcAggElement → List NcAggElement → List NcAggElement
insert_sorted e [] = e ∷ []
insert_sorted e (x ∷ xs) = if comes_before e x then e ∷ x ∷ xs else x ∷ insert_sorted e xs

pub length-insert_sorted :
    (e : NcAggElement) (xs : List NcAggElement) → length (insert_sorted e xs) ≡ length xs + 1
unfolding insert_sorted
length-insert_sorted e [] = omega arith
length-insert_sorted e (x ∷ xs) = ground (arith, length-insert_sorted e xs)

pub write-append :
    (e y : NcAggElement) (pre rest : List NcAggElement) (i : ℕ)
    → length pre ≡ i
    → write (pre ++ y ∷ rest) i e ≡ ok (pre ++ e ∷ rest)
write-append e y pre rest i h = rw (set?-append pre rest y e i h)

pub read-append :
    (x : NcAggElement) (pre rest : List NcAggElement) (i : ℕ)
    → length pre ≡ i
    → read (pre ++ x ∷ rest) i ≡ ok x
read-append x pre rest i h = rw (get_elem?-append pre rest x i h)

-- One round of the shift copies the last file that is still to move into the place behind it.
shift_up-snoc :
    (y m : NcAggElement) (pre mid rest : List NcAggElement) (i r : ℕ)
    → length pre ≡ i
    → length mid ≡ r
    → shift_up (suc r) i (pre ++ (mid ++ m ∷ y ∷ rest))
      ≡ shift_up r i (pre ++ (mid ++ m ∷ m ∷ rest))
unfolding shift_up
shift_up-snoc y m pre mid rest i r hi hr = rw (reads, writes)
  where
    reads : read (pre ++ (mid ++ m ∷ y ∷ rest)) (i + r) ≡ ok m
    reads =
        rw (← append_assoc)
          (read-append m (pre ++ mid) (y ∷ rest) (i + r) (omega (arith, length-append pre mid)))

    before : pre ++ (mid ++ m ∷ y ∷ rest) ≡ (pre ++ (mid ++ m ∷ [])) ++ y ∷ rest
    before = simp append_assoc

    after : pre ++ (mid ++ m ∷ m ∷ rest) ≡ (pre ++ (mid ++ m ∷ [])) ++ m ∷ rest
    after = simp append_assoc

    writes : write (pre ++ (mid ++ m ∷ y ∷ rest)) (i + suc r) m ≡ ok (pre ++ (mid ++ m ∷ m ∷ rest))
    writes =
        rw (before, after)
          (write-append m y (pre ++ (mid ++ m ∷ [])) rest (i + suc r)
            (omega (arith, length-append pre (mid ++ m ∷ []), length-append mid (m ∷ []))))

-- Shifting opens a place for the element.
shift_up-write :
    (e y : NcAggElement) (pre mid rest : List NcAggElement) (i r : ℕ)
    → length pre ≡ i
    → length mid ≡ r
    → (shift_up r i (pre ++ (mid ++ y ∷ rest)) >>= λ b. write b i e) ≡ ok (pre ++ e ∷ (mid ++ rest))
shift_up-write e y pre [] rest i zero hi hr = unfold shift_up in write-append e y pre rest i hi
shift_up-write e y pre (x ∷ mid) rest i zero hi hr = absurd (omega arith)
shift_up-write e y pre mid rest i (suc r) hi hr =
    let (mid', m, split, hr') = snoc_view r mid hr in
    let a : pre ++ (mid ++ y ∷ rest) ≡ pre ++ (mid' ++ m ∷ y ∷ rest) =
      rw split (simp append_assoc) in
    let b : mid ++ rest ≡ mid' ++ m ∷ rest = rw split (simp append_assoc) in
    rw (a, b, shift_up-snoc y m pre mid' rest i r hi hr')
      (shift_up-write e m pre mid' (m ∷ rest) i r hi hr')

pub insert_loop-append :
    (e y : NcAggElement) (pre xs rest : List NcAggElement) (i r : ℕ)
    → length pre ≡ i
    → length xs ≡ r
    → insert_loop r i e (pre ++ (xs ++ y ∷ rest)) ≡ ok (pre ++ (insert_sorted e xs ++ rest))
unfolding insert_loop insert_sorted
insert_loop-append e y pre [] rest i zero hi hr = write-append e y pre rest i hi
insert_loop-append e y pre (x ∷ xs) rest i zero hi hr = absurd (omega arith)
insert_loop-append e y pre [] rest i (suc r) hi hr = absurd (omega arith)
insert_loop-append e y pre (x ∷ xs) rest i (suc r) hi hr =
    rw (read-append x pre (xs ++ y ∷ rest) i hi) (elim (Bool-cases (comes_before e x)) [
      | inl before ↦ rw before (shift_up-write e y pre (x ∷ xs) rest i (suc r) hi hr)
      | inr behind ↦ rw behind (
          rw (regroup (xs ++ y ∷ rest), regroup (insert_sorted e xs ++ rest))
            (insert_loop-append e y (pre ++ x ∷ []) xs rest (i + 1) r
              (omega (arith, length-append pre (x ∷ []))) (omega arith)))
    ])
  where
    regroup : (ys : List NcAggElement) → pre ++ x ∷ ys ≡ (pre ++ x ∷ []) ++ ys
    regroup ys = simp append_assoc

pub copy_into-append :
    (xs ys spare spare' : List NcAggElement)
    → length xs ≡ length ys
    → copy_into (length xs) (xs ++ spare) (ys ++ spare') ≡ ok (xs ++ spare')
unfolding copy_into
copy_into-append [] [] spare spare' h = refl
copy_into-append [] (y ∷ ys) spare spare' h = absurd (omega arith)
copy_into-append (x ∷ xs) [] spare spare' h = absurd (omega arith)
copy_into-append (x ∷ xs) (y ∷ ys) spare spare' h =
    rw (copy_into-append xs ys spare spare' (omega arith))

-- ===== src/Dict/Cells.antt =====
-- The loops of a dictionary_t on cells that are set, with the room behind them.
use Prim.Native.Nat.add
use irods_netcdf.Base.{
  ℕ, suc, ◌+◌, ◌≡◌, refl, sym, ap, ◌∙◌, true, false, Option, none, some, List, [], ◌∷◌, ◌++◌,
  append_assoc, arith, replicate, strcmp_eq, length, length-append, get_elem?-append, set?-append,
}
use irods_netcdf.Status.{ok}
use irods_netcdf.Dict.Entries.{Key, key_in}
use irods_netcdf.Dict.Attr.{read_cell, write_cell, copy_cells, shift_down, find_key, find_not_null}

unfoldable pub cells : {A : Type 0} → List A → List (Option A)
cells [] = []
cells (x ∷ xs) = some x ∷ cells xs

module _ {A : Type 0} where
  pub cells-append : (xs ys : List A) → cells (xs ++ ys) ≡ cells xs ++ cells ys
  unfolding cells
  cells-append [] ys = refl
  cells-append (x ∷ xs) ys = ap (◌∷◌ (some x)) (cells-append xs ys)

  pub length-cells : (xs : List A) → length (cells xs) ≡ length xs
  unfolding cells
  length-cells [] = refl
  length-cells (x ∷ xs) = ap suc (length-cells xs)

  pub read_cell_lem :
      (xs ys : List (Option A)) (y : Option A) (i : ℕ)
      → length xs ≡ i
      → read_cell (some (xs ++ y ∷ ys)) i ≡ ok y
  read_cell_lem xs ys y i h = rw (get_elem?-append xs ys y i h) refl

  pub write_cell_lem :
      (xs ys : List (Option A)) (y z : Option A) (i : ℕ)
      → length xs ≡ i
      → write_cell (some (xs ++ y ∷ ys)) i z ≡ ok (some (xs ++ z ∷ ys))
  write_cell_lem xs ys y z i h = rw (set?-append xs ys y z i h) refl

  length-snoc :
      (xs : List (Option A)) (x : Option A) (i : ℕ) → length xs ≡ i → length (xs ++ x ∷ []) ≡ i + 1
  length-snoc xs x i h = omega (arith, length-append xs (x ∷ []))

  -- One cell further.
  pub snoc_assoc : (xs ys : List A) (x : A) → xs ++ (x ∷ ys) ≡ (xs ++ x ∷ []) ++ ys
  snoc_assoc xs ys x = sym (append_assoc xs (x ∷ []) ys)

module _ {A : Type 0} where
  pub copy_cells_lem :
      (done xs spare : List (Option A)) (m i : ℕ) {a b : List (Option A)}
      → length done ≡ i
      → a ≡ done ++ (xs ++ spare)
      → b ≡ done ++ replicate (length xs + m) none
      → copy_cells (length xs) i (some a) (some b) ≡ ok (some (done ++ (xs ++ replicate m none)))
  unfolding copy_cells
  copy_cells_lem done [] spare m i h ea eb = rw (eb, add.zero) refl
  copy_cells_lem done (x ∷ xs) spare m i h ea eb =
      rw
        (
          ea,
          eb,
          add.suc,
          read_cell_lem done (xs ++ spare) x i h,
          write_cell_lem done (replicate (length xs + m) none) none x i h,
        )
        (copy_cells_lem (done ++ x ∷ []) xs spare m (i + 1) (length-snoc done x i h)
            (snoc_assoc done (xs ++ spare) x) (snoc_assoc done (replicate (length xs + m) none) x)
          ∙ ap (λ (c : List (Option A)). ok (some c))
              (sym (snoc_assoc done (xs ++ replicate m none) x)))

  -- The cells behind x go down by one; the last of them is left twice.
  pub shift_down_lem :
      (front ys spare : List (Option A)) (x : Option A) (j : ℕ) {a : List (Option A)}
      → length front ≡ j
      → a ≡ front ++ (x ∷ (ys ++ spare))
      → (last : Option A) × (shift_down (length ys) j (some a)
          ≡ ok (some (front ++ (ys ++ (last ∷ spare)))))
  unfolding shift_down
  shift_down_lem front [] spare x j h e = (x, rw e refl)
  shift_down_lem front (y ∷ ys) spare x j {a = a} h e =
      let (last, s) =
        shift_down_lem (front ++ y ∷ []) ys spare y (j + 1) (length-snoc front y j h)
          (snoc_assoc front (y ∷ (ys ++ spare)) y) in
      let read : read_cell (some a) (j + 1) ≡ ok y =
        rw (e, snoc_assoc front (y ∷ (ys ++ spare)) x)
          (read_cell_lem (front ++ x ∷ []) (ys ++ spare) y (j + 1) (length-snoc front x j h)) in
      (
        last,
        rw (read, e, write_cell_lem front (y ∷ (ys ++ spare)) x y j h)
            (s
              ∙ ap (λ (c : List (Option A)). ok (some c))
                  (sym (snoc_assoc front (ys ++ (last ∷ spare)) y))),
      )

module _ (k : Key) where
  pub not_key_in :
      (x : Key) (ks : List Key)
      → key_in (x ∷ ks) k ≡ false
      → (strcmp_eq k x ≡ false) × (key_in ks k ≡ false)
  unfolding key_in
  not_key_in x ks h = ground arith

  read_key :
      (pre : List (Option Key)) (x : Key) (ks : List Key) (spare : List (Option Key)) (i : ℕ)
      {a : List (Option Key)}
      → length pre ≡ i
      → a ≡ pre ++ (cells (x ∷ ks) ++ spare)
      → read_cell (some a) i ≡ ok (some x)
  unfolding cells
  read_key pre x ks spare i h e = rw e (read_cell_lem pre (cells ks ++ spare) (some x) i h)

  pub find_key_absent :
      (pre : List (Option Key)) (ks : List Key) (spare : List (Option Key)) (i : ℕ)
      {a : List (Option Key)}
      → length pre ≡ i
      → a ≡ pre ++ (cells ks ++ spare)
      → key_in ks k ≡ false
      → find_key (length ks) i k (some a) ≡ ok none
  unfolding find_key cells
  find_key_absent pre [] spare i h e new = refl
  find_key_absent pre (x ∷ ks) spare i h e new =
      let (other, new') = not_key_in x ks new in
      rw (read_key pre x ks spare i h e, other)
        (find_key_absent (pre ++ some x ∷ []) ks spare (i + 1) (length-snoc pre (some x) i h)
          (e ∙ snoc_assoc pre (cells ks ++ spare) (some x)) new')

  pub find_key_present :
      (pre : List (Option Key)) (front post : List Key) (x : Key) (spare : List (Option Key))
      (i : ℕ) {a : List (Option Key)}
      → length pre ≡ i
      → a ≡ pre ++ (cells (front ++ x ∷ post) ++ spare)
      → key_in front k ≡ false
      → strcmp_eq k x ≡ true
      → find_key (length (front ++ x ∷ post)) i k (some a) ≡ ok (some (i + length front))
  unfolding find_key cells
  find_key_present pre [] post x spare i h e new same =
      let last : i ≡ i + 0 = omega arith in
      rw (read_key pre x post spare i h e, same) (ap (λ (n : ℕ). ok (some n)) last)
  find_key_present pre (y ∷ front) post x spare i h e new same =
      let (other, new') = not_key_in y front new in
      let next : i + 1 + length front ≡ i + suc (length front) = omega arith in
      rw (read_key pre y (front ++ x ∷ post) spare i h e, other)
        (find_key_present (pre ++ some y ∷ []) front post x spare (i + 1)
            (length-snoc pre (some y) i h)
            (e ∙ snoc_assoc pre (cells (front ++ x ∷ post) ++ spare) (some y)) new' same
          ∙ ap (λ (n : ℕ). ok (some n)) next)

  pub find_not_null_lem :
      (pre : List (Option Key)) (ks : List Key) (spare : List (Option Key)) (i : ℕ)
      {a : List (Option Key)}
      → length pre ≡ i
      → a ≡ pre ++ (cells ks ++ spare)
      → find_not_null (length ks) i k (some a) ≡ find_key (length ks) i k (some a)
  unfolding find_key find_not_null cells
  find_not_null_lem pre [] spare i h e = refl
  find_not_null_lem pre (x ∷ ks) spare i {a = a} h e =
      let rest =
        find_not_null_lem (pre ++ some x ∷ []) ks spare (i + 1) (length-snoc pre (some x) i h)
          (e ∙ snoc_assoc pre (cells ks ++ spare) (some x)) in
      rw (read_key pre x ks spare i h e, rest) refl

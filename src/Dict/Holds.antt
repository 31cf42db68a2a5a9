-- ===== src/Dict/Holds.antt =====
-- An array of a dictionary_t that holds a list: its cells are set for the elements, and the room behind them
-- fills whole blocks of PTR_ARRAY_MALLOC_LEN cells.
use Prim.Native.Nat.add
use irods_netcdf.Base.{
  ℕ, zero, suc, ◌+◌, ◌%◌, ◌<◌, ◌≡◌, refl, sym, ap, ◌∙◌, subst, ◌⊎◌, inl, inr, true, false, Option,
  none, some, List, [], ◌∷◌, ◌++◌, append_assoc, arith, ◌==◌, replicate, length-replicate, length,
  length-append,
}
use irods_netcdf.Status.{ok}
use irods_netcdf.Dict.Attr.{read_cell, write_cell, copy_cells, shift_down}
use irods_netcdf.Dict.Cells.{
  cells, cells-append, length-cells, read_cell_lem, write_cell_lem, copy_cells_lem, shift_down_lem,
}

full_blocks : (n m : ℕ) → (n + 0) % m ≡ 0 → (n % m == 0) ≡ true
full_blocks n m h = ground (arith, subst (λ (k : ℕ). k % m ≡ 0) e h)
  where
    e : n + 0 ≡ n
    e = omega arith

block_mod : (n m : ℕ) → 0 < m → n % m ≡ 0 → (n + m) % m ≡ 0
block_mod n m h e = grind arith

split_cells :
    {A : Type 0} (front post : List A) (x : A) (spare : List (Option A))
    → cells (front ++ x ∷ post) ++ spare ≡ cells front ++ (some x ∷ (cells post ++ spare))
unfolding cells
split_cells front post x spare =
    rw (cells-append front (x ∷ post)) (append_assoc (cells front) (some x ∷ cells post) spare)

module _ {A : Type 0} (ptr_array_malloc_len : ℕ) where
  pub record Holds (a : Option (List (Option A))) (xs : List A) : Type 0 where
    pub spare : List (Option A)
    pub at : a ≡ some (cells xs ++ spare)
    pub blocks : (length xs + length spare) % ptr_array_malloc_len ≡ 0

  -- Room for one more element.
  pub record HasRoom (a : Option (List (Option A))) (xs : List A) : Type 0 where
    pub next : Option A
    pub spare : List (Option A)
    pub at : a ≡ some (cells xs ++ (next ∷ spare))
    pub blocks : (length xs + suc (length spare)) % ptr_array_malloc_len ≡ 0

  pub Holds-HasRoom :
      {a : Option (List (Option A))} (xs : List A)
      → Holds a xs
      → (length xs % ptr_array_malloc_len == 0) ≡ false
      → HasRoom a xs
  Holds-HasRoom {a = a} xs h room = room_of h.spare h.at h.blocks
    where
      room_of :
          (spare : List (Option A))
          → a ≡ some (cells xs ++ spare)
          → (length xs + length spare) % ptr_array_malloc_len ≡ 0
          → HasRoom a xs
      room_of [] e b = absurd (ground (arith, full_blocks (length xs) ptr_array_malloc_len b))
      room_of (y ∷ spare) e b = record { next = y; spare = spare; at = e; blocks = b }

  fresh-HasRoom :
      (xs : List A) (m : ℕ)
      → 0 < m
      → (length xs + m) % ptr_array_malloc_len ≡ 0
      → HasRoom (some (cells xs ++ replicate m none)) xs
  fresh-HasRoom xs zero h b = absurd (omega arith)
  fresh-HasRoom xs (suc m) h b = record {
    next = none;
    spare = replicate m none;
    at = refl;
    blocks = rw (length-replicate {A = Option A} m none) b;
  }

  -- The copy into a new block that the array grows by.
  pub copy_cells-HasRoom :
      {a : Option (List (Option A))} (xs : List A)
      → 0 < ptr_array_malloc_len
      → Holds a xs
      → (length xs % ptr_array_malloc_len == 0) ≡ true
      → (a' : Option (List (Option A))) × (copy_cells
            (length xs)
            0
            a
            (some (replicate (length xs + ptr_array_malloc_len) none))
          ≡ ok a')
        × HasRoom a' xs
  copy_cells-HasRoom xs positive h full =
      let b = block_mod (length xs) ptr_array_malloc_len positive (ground arith) in
      let copied = copy_cells_lem [] (cells xs) h.spare ptr_array_malloc_len 0 refl refl refl in
      (
        some (cells xs ++ replicate ptr_array_malloc_len none),
        rw h.at (
            subst
              (λ (n : ℕ).
                copy_cells n 0 (some (cells xs ++ h.spare))
                  (some (replicate (n + ptr_array_malloc_len) none))
                ≡ ok (some (cells xs ++ replicate ptr_array_malloc_len none)))
              (length-cells xs) copied),
        fresh-HasRoom xs ptr_array_malloc_len positive b,
      )

  -- The same where there is no array yet.
  pub fresh_block :
      0 < ptr_array_malloc_len → HasRoom (some (replicate ptr_array_malloc_len none)) []
  unfolding cells
  fresh_block positive =
      fresh-HasRoom [] ptr_array_malloc_len positive
        (block_mod 0 ptr_array_malloc_len positive (ground arith))

  pub write_cell-push :
      {a : Option (List (Option A))} (xs : List A) (x : A)
      → HasRoom a xs
      → (a' : Option (List (Option A))) × (write_cell a (length xs) (some x) ≡ ok a')
        × Holds a' (xs ++ x ∷ [])
  unfolding cells
  write_cell-push xs x r =
      let e : length (cells xs) ≡ length xs = length-cells xs in
      let b : length xs + suc (length r.spare) ≡ length (xs ++ x ∷ []) + length r.spare =
        omega (arith, length-append xs (x ∷ [])) in
      (
        some (cells xs ++ (some x ∷ r.spare)),
        rw r.at (write_cell_lem (cells xs) r.spare r.next (some x) (length xs) e),
        record {
          spare = r.spare;
          at = ap some (sym (split_cells xs [] x r.spare));
          blocks = subst (λ (k : ℕ). k % ptr_array_malloc_len ≡ 0) b r.blocks;
        },
      )

  pub write_cell-replace :
      {a : Option (List (Option A))} (front post : List A) (x z : A)
      → Holds a (front ++ x ∷ post)
      → (a' : Option (List (Option A))) × (write_cell a (length front) (some z) ≡ ok a')
        × Holds a' (front ++ z ∷ post)
  write_cell-replace front post x z h =
      let b : length (front ++ x ∷ post) + length h.spare
          ≡ length (front ++ z ∷ post) + length h.spare =
        omega (arith, length-append front (x ∷ post), length-append front (z ∷ post)) in
      (
        some (cells front ++ (some z ∷ (cells post ++ h.spare))),
        rw (h.at, split_cells front post x h.spare)
            (write_cell_lem (cells front) (cells post ++ h.spare) (some x) (some z) (length front)
              (length-cells front)),
        record {
          spare = h.spare;
          at = ap some (sym (split_cells front post z h.spare));
          blocks = subst (λ (k : ℕ). k % ptr_array_malloc_len ≡ 0) b h.blocks;
        },
      )

  pub read_cell-there :
      {a : Option (List (Option A))} (front post : List A) (x : A)
      → Holds a (front ++ x ∷ post)
      → read_cell a (length front) ≡ ok (some x)
  read_cell-there front post x h =
      rw (h.at, split_cells front post x h.spare)
        (read_cell_lem (cells front) (cells post ++ h.spare) (some x) (length front)
          (length-cells front))

  pub shift_down-remove :
      {a : Option (List (Option A))} (front post : List A) (x : A)
      → Holds a (front ++ x ∷ post)
      → (a' : Option (List (Option A))) × (shift_down (length post) (length front) a ≡ ok a')
        × Holds a' (front ++ post)
  shift_down-remove front post x h =
      let (last, moved) =
        shift_down_lem (cells front) (cells post) h.spare (some x) (length front)
          (length-cells front) (split_cells front post x h.spare) in
      let b : length (front ++ x ∷ post) + length h.spare
          ≡ length (front ++ post) + suc (length h.spare) =
        omega (arith, length-append front (x ∷ post), length-append front post) in
      (
        some (cells front ++ (cells post ++ (last ∷ h.spare))),
        rw h.at (
            subst
              (λ (n : ℕ).
                shift_down n (length front) (some (cells (front ++ x ∷ post) ++ h.spare))
                ≡ ok (some (cells front ++ (cells post ++ (last ∷ h.spare)))))
              (length-cells post) moved),
        record {
          spare = last ∷ h.spare;
          at = ap some (
              sym (append_assoc (cells front) (cells post) (last ∷ h.spare))
              ∙ ap (λ (c : List (Option A)). c ++ (last ∷ h.spare))
                  (sym (cells-append front post)));
          blocks = subst (λ (k : ℕ). k % ptr_array_malloc_len ≡ 0) b h.blocks;
        },
      )

  -- An array that is not there yet holds nothing.
  abbrev pub Stored : Option (List (Option A)) → List A → Type 0
  Stored a xs = ((xs ≡ []) × (a ≡ none)) ⊎ Holds a xs

  pub Stored-there :
      {a : Option (List (Option A))} (front post : List A) (x : A)
      → Stored a (front ++ x ∷ post)
      → Holds a (front ++ x ∷ post)
  Stored-there front post x (inl (e, _)) =
      absurd (omega (arith, ap length e, length-append front (x ∷ post)))
  Stored-there front post x (inr h) = h

  pub Stored-grown :
      {a : Option (List (Option A))} (xs : List A) (n : ℕ)
      → n ≡ length xs
      → 0 < ptr_array_malloc_len
      → Stored a xs
      → (n % ptr_array_malloc_len == 0) ≡ true
      → (a' : Option (List (Option A))) × (copy_cells n 0 a
            (some (replicate (n + ptr_array_malloc_len) none))
          ≡ ok a')
        × HasRoom a' xs
  unfolding copy_cells
  Stored-grown xs n e positive (inl (empty, e')) full = (
    some (replicate ptr_array_malloc_len none),
    rw (e, empty, add.zero) refl,
    subst (HasRoom _) (sym empty) (fresh_block positive),
  )
  Stored-grown xs n e positive (inr h) full =
      let (a', c, r) = copy_cells-HasRoom xs positive h (ground arith) in (a', rw e c, r)

  pub Stored-kept :
      {a : Option (List (Option A))} (xs : List A) (n : ℕ)
      → n ≡ length xs
      → Stored a xs
      → (n % ptr_array_malloc_len == 0) ≡ false
      → HasRoom a xs
  Stored-kept xs n e (inl (empty, _)) room =
      absurd (ground (arith, full_blocks 0 ptr_array_malloc_len, ap length empty))
  Stored-kept xs n e (inr h) room = Holds-HasRoom xs h (ground arith)

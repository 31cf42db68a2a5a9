-- ===== src/Agg/Insert.antt =====
-- addNcAggElement stores an element where a sorted insertion does, never outside its array.
use Prim.Native.Nat.add
use irods_netcdf.Base.{
  ℕ, zero, suc, ◌+◌, ◌%◌, ◌<◌, ◌≡◌, refl, sym, ap, ◌∙◌, ◌⊎◌, inl, inr, true, false, none, some,
  List, [], ◌∷◌, ◌++◌, arith, subst, ◌==◌, ltb, ltb→lt, if◌then◌else◌, Bool-cases, length,
  replicate, length-replicate,
}
use irods_netcdf.Status.{ok}
use irods_netcdf.Agg.{
  NcAggElement, NcAggInfo, zero_element, write, copy_into, insert_loop, grow, store,
  add_nc_agg_element,
}
use irods_netcdf.Agg.Shift.{
  insert_sorted, length-insert_sorted, insert_loop-append, copy_into-append,
}

replicate-add :
    (n m : ℕ)
    → replicate (n + m) zero_element ≡ replicate n zero_element ++ replicate m zero_element
replicate-add zero m = rw add.zero
replicate-add (suc n) m = rw add.suc (ap (◌∷◌ zero_element) (replicate-add n m))

-- Either branch of the store puts the element in its place.
place :
    (e y : NcAggElement) (xs rest : List NcAggElement) (n : ℕ)
    → length xs ≡ n
    → (if n == 0 then write (xs ++ y ∷ rest) 0 e else insert_loop n 0 e (xs ++ y ∷ rest))
      ≡ ok (insert_sorted e xs ++ rest)
place e y [] rest zero h = unfold insert_sorted in refl
place e y (x ∷ xs) rest zero h = absurd (omega arith)
place e y xs rest (suc n) h = ground (arith, insert_loop-append e y [] xs rest 0 (suc n) refl h)

fresh_block :
    (m : ℕ)
    → 0 < m
    → (y : NcAggElement) × (rest : List NcAggElement) × (replicate m zero_element ≡ y ∷ rest)
      × (suc (length rest) ≡ m)
fresh_block zero h = absurd (omega arith)
fresh_block (suc m) h =
    (zero_element, replicate m zero_element, refl, ap suc (length-replicate m zero_element))

empty_of_length : (xs : List NcAggElement) → length xs ≡ 0 → xs ≡ []
empty_of_length [] h = refl
empty_of_length (x ∷ xs) h = absurd (omega arith)

copy_block :
    (xs spare : List NcAggElement) (n m : ℕ)
    → n ≡ length xs
    → copy_into n (xs ++ spare) (replicate (n + m) zero_element)
      ≡ ok (xs ++ replicate m zero_element)
copy_block xs spare n m h =
    rw (h, replicate-add)
      (copy_into-append xs _ spare _ (sym (length-replicate (length xs) zero_element)))

zero_mod : (m : ℕ) → 0 % m ≡ 0
zero_mod m = grind arith

block_mod : (n m : ℕ) → 0 < m → n % m ≡ 0 → (n + m) % m ≡ 0
block_mod n m h e = grind arith

module _ (ptr_array_malloc_len : ℕ) where
  -- The files of `info` are `xs`; the array behind them is whole blocks.
  pub record Represents (info : NcAggInfo) (xs : List NcAggElement) : Type 0 where
    pub counted : info.num_files ≡ length xs
    pub stored :
        ((xs ≡ []) × (info.nc_agg_element ≡ none))
        ⊎ ((spare : List NcAggElement) × (info.nc_agg_element ≡ some (xs ++ spare))
            × ((length xs + length spare) % ptr_array_malloc_len ≡ 0))

  -- Room for one more file.
  record HasRoom (info : NcAggInfo) (xs : List NcAggElement) : Type 0 where
    counted : info.num_files ≡ length xs
    next : NcAggElement
    spare : List NcAggElement
    stored : info.nc_agg_element ≡ some (xs ++ next ∷ spare)
    blocks : (length xs + suc (length spare)) % ptr_array_malloc_len ≡ 0

  store-Represents :
      (e : NcAggElement) (info : NcAggInfo) (xs : List NcAggElement)
      → HasRoom info xs
      → (info' : NcAggInfo) × (store ptr_array_malloc_len e info ≡ ok info')
        × Represents info' (insert_sorted e xs)
        × (info'.nc_object_name ≡ info.nc_object_name)
  store-Represents e info xs room = (
    record info {
      num_files = info.num_files + 1;
      nc_agg_element = some (insert_sorted e xs ++ room.spare);
    },
    done,
    record {
      counted = omega (arith, room.counted, length-insert_sorted e xs);
      stored = inr (
        room.spare,
        refl,
        subst (λ (n : ℕ). n % ptr_array_malloc_len ≡ 0) (omega (arith, length-insert_sorted e xs))
            room.blocks,
      );
    },
    refl,
  )
    where
      done :
          store ptr_array_malloc_len e info
          ≡ ok (record info {
            num_files = info.num_files + 1;
            nc_agg_element = some (insert_sorted e xs ++ room.spare);
          })
      done =
          unfold store in
          rw room.stored (rw (place e room.next xs room.spare info.num_files (sym room.counted)))

  grow_full :
      (info : NcAggInfo) (xs : List NcAggElement)
      → Represents info xs
      → (info.num_files % ptr_array_malloc_len == 0) ≡ true
      → grow ptr_array_malloc_len info
        ≡ ok (record info {
          nc_agg_element = some (xs ++ replicate ptr_array_malloc_len zero_element);
        })
  unfolding grow
  grow_full info xs h full = elim (Bool-cases (ltb 0 info.num_files)) [
    | inl more ↦ elim h.stored [
      | inl (e, _) ↦ absurd (omega (arith, ap length e, ltb→lt 0 info.num_files more, h.counted))
      | inr (spare, e, _) ↦
          rw (full, more, e)
            (rw (copy_block xs spare info.num_files ptr_array_malloc_len h.counted))
    ]
    | inr fewer ↦
        let zero_files : info.num_files ≡ 0 = ground arith in
        let e : xs ≡ [] = empty_of_length xs (omega (arith, h.counted)) in
        rw (full, fewer) (rw (e, zero_files, add.zero))
  ]

  grow_room :
      (info : NcAggInfo)
      → (info.num_files % ptr_array_malloc_len == 0) ≡ false
      → grow ptr_array_malloc_len info ≡ ok info
  unfolding grow
  grow_room info room = rw room

  spare-HasRoom :
      (info : NcAggInfo) (xs spare : List NcAggElement)
      → info.num_files ≡ length xs
      → info.nc_agg_element ≡ some (xs ++ spare)
      → (length xs + length spare) % ptr_array_malloc_len ≡ 0
      → (info.num_files % ptr_array_malloc_len == 0) ≡ false
      → HasRoom info xs
  spare-HasRoom info xs [] n e b room = absurd (ground (arith, zero_mod))
    where
      zero_mod : length xs % ptr_array_malloc_len ≡ 0
      zero_mod = subst (λ (k : ℕ). k % ptr_array_malloc_len ≡ 0) (omega arith) b
  spare-HasRoom info xs (y ∷ spare) n e b room = record {
    counted = n;
    next = y;
    spare = spare;
    stored = e;
    blocks = b;
  }

  keep :
      (info : NcAggInfo) (xs : List NcAggElement)
      → Represents info xs
      → (info.num_files % ptr_array_malloc_len == 0) ≡ false
      → HasRoom info xs
  keep info xs h room = elim h.stored [
    | inl (e, _) ↦ absurd (ground (arith, zero_files, zero_mod ptr_array_malloc_len))
    | inr (spare, e, b) ↦ spare-HasRoom info xs spare h.counted e b room
  ]
    where
      zero_files : xs ≡ [] → info.num_files ≡ 0
      zero_files e = h.counted ∙ ap length e

  grow-HasRoom :
      (info : NcAggInfo) (xs : List NcAggElement)
      → 0 < ptr_array_malloc_len
      → Represents info xs
      → (info' : NcAggInfo) × (grow ptr_array_malloc_len info ≡ ok info')
        × HasRoom info' xs
        × (info'.nc_object_name ≡ info.nc_object_name)
  grow-HasRoom info xs positive h = elim (Bool-cases (info.num_files % ptr_array_malloc_len == 0)) [
    | inl full ↦
        let (y, rest, e, l) = fresh_block ptr_array_malloc_len positive in
        (
          record info { nc_agg_element = some (xs ++ replicate ptr_array_malloc_len zero_element) },
          grow_full info xs h full,
          record {
            counted = h.counted;
            next = y;
            spare = rest;
            stored = rw e;
            blocks =
                subst (λ (n : ℕ). (length xs + n) % ptr_array_malloc_len ≡ 0) (sym l)
                  (block_mod (length xs) ptr_array_malloc_len positive (ground (arith, h.counted)));
          },
          refl,
        )
    | inr room ↦ (info, grow_room info room, keep info xs h room, refl)
  ]

  pub add_nc_agg_element-Represents :
      (e : NcAggElement) (info : NcAggInfo) (xs : List NcAggElement)
      → 0 < ptr_array_malloc_len
      → Represents info xs
      → (info' : NcAggInfo) × (add_nc_agg_element ptr_array_malloc_len (some e) (some info)
          ≡ ok info')
        × Represents info' (insert_sorted e xs)
        × (info'.nc_object_name ≡ info.nc_object_name)
  add_nc_agg_element-Represents e info xs positive h =
      let (grown, g, room, n) = grow-HasRoom info xs positive h in
      let (info', s, r, n') = store-Represents e grown xs room in
      (info', unfold add_nc_agg_element in rw g s, r, n' ∙ n)

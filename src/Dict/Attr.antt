-- ===== src/Dict/Attr.antt =====
-- api/lib/ooiCi.cpp: dictSetAttr, dictGetAttr and dictDelAttr on the arrays of a dictionary_t.
use irods_netcdf.Base.{
  ℕ, zero, suc, ◌+◌, ◌-◌, ◌%◌, Option, none, some, List, ◌==◌, if◌then◌else◌, get_elem?, set?,
  replicate, strcmp_eq,
}
use irods_netcdf.Status.{Result, ok, err, code, ◌>>=◌, deref, sys_internal_null_input_err}
use irods_netcdf.Dict.Entries.{Key}

-- dictionary_t. An array is `none` for a null pointer, its length is what was allocated, and a cell is `none`
-- as calloc leaves it; `V` is the type_PI of a value with what its ptr points to.
pub record Dictionary (V : Type 0) : Type 0 where
  pub len : ℕ
  pub key : Option (List (Option Key))
  pub value : Option (List (Option V))

abbrev pub read_cell : {A : Type 0} → Option (List (Option A)) → ℕ → Result (Option A)
read_cell a i = deref a >>= λ cells. deref (get_elem? cells i)

abbrev pub write_cell :
    {A : Type 0} → Option (List (Option A)) → ℕ → Option A → Result (Option (List (Option A)))
write_cell a i x = deref a >>= λ cells. deref (set? cells i x) >>= λ cells'. ok (some cells')

-- newKey[i] = key[i] and newValue[i] = value[i] for i < n, with `r` the rounds left, so n is i + r.
unfoldable pub copy_cells :
    {A : Type 0}
    → ℕ
    → ℕ
    → Option (List (Option A))
    → Option (List (Option A))
    → Result (Option (List (Option A)))
copy_cells zero i a b = ok b
copy_cells (suc r) i a b =
    read_cell a i >>= λ x. write_cell b i x >>= λ b'. copy_cells r (i + 1) a b'

-- cell[j] = cell[j + 1], with `r` the rounds left.
unfoldable pub shift_down :
    {A : Type 0} → ℕ → ℕ → Option (List (Option A)) → Result (Option (List (Option A)))
shift_down zero j a = ok a
shift_down (suc r) j a =
    read_cell a (j + 1) >>= λ x. write_cell a j x >>= λ b. shift_down r (j + 1) b

-- The search by strcmp that the three functions make, with `r` the rounds left, so len is i + r: a key that
-- is null is not to be compared.
unfoldable pub find_key : ℕ → ℕ → Key → Option (List (Option Key)) → Result (Option ℕ)
find_key zero i k a = ok none
find_key (suc r) i k a =
    let rest = find_key r (i + 1) k a in
    read_cell a i >>= λ cell. deref cell >>= λ x. if strcmp_eq k x then ok (some i) else rest

-- In dictDelAttr a null key is passed over.
unfoldable pub find_not_null : ℕ → ℕ → Key → Option (List (Option Key)) → Result (Option ℕ)
find_not_null zero i k a = ok none
find_not_null (suc r) i k a =
    let rest = find_not_null r (i + 1) k a in
    read_cell a i >>= λ cell. elim cell [
      | none ↦ rest
      | some x ↦ if strcmp_eq k x then ok (some i) else rest
    ]

module _ {V : Type 0} where
  -- PTR_ARRAY_MALLOC_LEN is a constant of iRODS: a parameter.
  unfoldable pub grow_attrs : ℕ → Dictionary V → Result (Dictionary V)
  unfolding copy_cells
  grow_attrs ptr_array_malloc_len d =
      let new_len = d.len + ptr_array_malloc_len in
      if d.len % ptr_array_malloc_len == 0
      then (copy_cells d.len 0 d.key (some (replicate new_len none)) >>= λ new_key.
          copy_cells d.len 0 d.value (some (replicate new_len none)) >>= λ new_value.
          ok (record d { key = new_key; value = new_value }))
      else ok d

  unfoldable pub append_attr : Key → V → Dictionary V → Result (Dictionary V)
  append_attr k v d = write_cell d.key d.len (some k) >>= λ key'.
      write_cell d.value d.len (some v) >>= λ value'.
      ok (record { len = d.len + 1; key = key'; value = value' })

  -- dictSetAttr; `none` is a null dictionary.
  unfoldable pub dict_set_attr : ℕ → Option (Dictionary V) → Key → V → Result (Dictionary V)
  unfolding find_key grow_attrs append_attr
  dict_set_attr ptr_array_malloc_len none k v = err (code sys_internal_null_input_err)
  dict_set_attr ptr_array_malloc_len (some d) k v = find_key d.len 0 k d.key >>= λ found.
      elim found [
        | some i ↦ write_cell d.value i (some v) >>= λ value'. ok (record d { value = value' })
        | none ↦ grow_attrs ptr_array_malloc_len d >>= append_attr k v
      ]

  -- dictGetAttr: what the pointer that is returned points to, `none` for a null pointer.
  unfoldable pub dict_get_attr : Option (Dictionary V) → Key → Result (Option (Option V))
  unfolding find_key
  dict_get_attr none k = ok none
  dict_get_attr (some d) k = find_key d.len 0 k d.key >>= λ found. elim found [
    | some i ↦ read_cell d.value i >>= λ cell. ok (some cell)
    | none ↦ ok none
  ]

  -- dictDelAttr behind the search. The arrays of a dictionary that gets empty are freed.
  unfoldable pub del_at : ℕ → Dictionary V → Result (Dictionary V)
  unfolding shift_down
  del_at i d =
      let len = d.len - 1 in
      shift_down (len - i) i d.key >>= λ key'. shift_down (len - i) i d.value >>= λ value'. ok (
        if len == 0
        then record { len = 0; key = none; value = none }
        else record { len = len; key = key'; value = value' })

  unfoldable pub dict_del_attr : Dictionary V → Key → Result (Dictionary V)
  unfolding find_not_null del_at
  dict_del_attr d k =
      find_not_null d.len 0 k d.key >>= λ found. elim found [ some i ↦ del_at i d | none ↦ ok d ]

-- ===== src/Agg.antt =====
-- api/lib/rcNcGetAggInfo.cpp: the aggregate description of a time series (ncAggInfo_t), the files of
-- which are kept in the order of their time ranges.
pub mod Shift
pub mod Insert
pub mod Order
pub mod Path
pub mod Collect
use irods_netcdf.Base.{
  ℕ, zero, suc, ◌+◌, ◌-◌, ◌%◌, Bool, ◌&&◌, ◌||◌, Option, none, some, List, [], ◌∷◌, ◌++◌, ltb, ◌==◌,
  if◌then◌else◌, get_elem?, set?, replicate,
}
use irods_netcdf.Status.{
  Result, ok, err, fault, code, ◌>>=◌, deref, user_null_input_err, netcdf_var_count_out_of_range,
  netcdf_agg_ele_inx_out_of_range,
}

-- ncAggElement_t; paths and printed times are lists of character codes.
pub record NcAggElement : Type 0 where
  pub start_time : ℕ
  pub end_time : ℕ
  pub astart_time : List ℕ
  pub aend_time : List ℕ
  pub arraylen : ℕ
  pub obj_path : List ℕ

-- What calloc leaves.
abbrev pub zero_element : NcAggElement
zero_element = record {
  start_time = 0;
  end_time = 0;
  astart_time = [];
  aend_time = [];
  arraylen = 0;
  obj_path = [];
}

-- ncAggInfo_t. The array is `none` for a null pointer; its length is what was allocated.
pub record NcAggInfo : Type 0 where
  pub num_files : ℕ
  pub nc_object_name : List ℕ
  pub nc_agg_element : Option (List NcAggElement)

abbrev pub read : List NcAggElement → ℕ → Result NcAggElement
read a i = deref (get_elem? a i)

abbrev pub write : List NcAggElement → ℕ → NcAggElement → Result (List NcAggElement)
write a i e = deref (set? a i e)

-- The test of the insertion loop: e goes before my_element.
pub comes_before : NcAggElement → NcAggElement → Bool
comes_before e my_element =
    ltb e.start_time my_element.start_time
    || ((e.start_time == my_element.start_time) && ltb e.end_time my_element.end_time)

-- memcpy (newElement, ncAggElement, n): the first n of `a` over the front of `b`.
pub copy_into : ℕ → List NcAggElement → List NcAggElement → Result (List NcAggElement)
copy_into zero a b = ok b
copy_into (suc n) (x ∷ a) (y ∷ b) = copy_into n a b >>= λ c. ok (x ∷ c)
copy_into (suc n) _ _ = fault

-- for ( j = numFiles; j > i; j-- ) a[j] = a[j - 1], with `r` the rounds left, so j is i + r.
pub shift_up : ℕ → ℕ → List NcAggElement → Result (List NcAggElement)
shift_up zero i a = ok a
shift_up (suc r) i a = read a (i + r) >>= λ x. write a (i + suc r) x >>= λ b. shift_up r i b

-- The loop over i, with `r` the rounds left, so numFiles is i + r; it ends at the insertion or
-- behind the last file.
pub insert_loop : ℕ → ℕ → NcAggElement → List NcAggElement → Result (List NcAggElement)
unfolding shift_up
insert_loop zero i e a = write a i e
insert_loop (suc r) i e a =
    let rest = insert_loop r (i + 1) e a in
    read a i >>= λ my_element.
    if comes_before e my_element then shift_up (suc r) i a >>= (λ b. write b i e) else rest

-- PTR_ARRAY_MALLOC_LEN is a constant of iRODS: a parameter.
module _ (ptr_array_malloc_len : ℕ) where
  -- The array grows by a block when the files fill the last one.
  pub grow : NcAggInfo → Result NcAggInfo
  grow info =
      let new_element = replicate (info.num_files + ptr_array_malloc_len) zero_element in
      if info.num_files % ptr_array_malloc_len == 0
      then (if ltb 0 info.num_files
          then elim info.nc_agg_element [
            | none ↦ err (code netcdf_var_count_out_of_range)
            | some a ↦ copy_into info.num_files a new_element >>= λ b.
                ok (record info { nc_agg_element = some b })
          ]
          else ok (record info { nc_agg_element = some new_element }))
      else ok info

  -- Behind the growth: the element is stored and counted.
  pub store : NcAggElement → NcAggInfo → Result NcAggInfo
  unfolding insert_loop
  store e info = deref info.nc_agg_element >>= λ a.
      (if info.num_files == 0 then write a 0 e else insert_loop info.num_files 0 e a) >>= λ b.
      ok (record info { num_files = info.num_files + 1; nc_agg_element = some b })

  -- addNcAggElement; `none` is a null argument.
  pub add_nc_agg_element : Option NcAggElement → Option NcAggInfo → Result NcAggInfo
  unfolding grow store
  add_nc_agg_element none info = err (code user_null_input_err)
  add_nc_agg_element (some e) none = err (code user_null_input_err)
  add_nc_agg_element (some e) (some info) = grow info >>= store e

-- The loop of sumAggElementArraylen, with `n` the rounds left.
pub sum_loop : ℕ → ℕ → ℕ → List NcAggElement → Result ℕ
sum_loop zero i array_len_sum a = ok array_len_sum
sum_loop (suc n) i array_len_sum a =
    read a i >>= λ x. sum_loop n (i + 1) (array_len_sum + x.arraylen) a

-- sumAggElementArraylen: the index is compared with the number of files and then not used.
pub sum_agg_element_arraylen : NcAggInfo → ℕ → Result ℕ
unfolding sum_loop
sum_agg_element_arraylen info agg_element_inx =
    if ltb info.num_files agg_element_inx
    then err (code netcdf_agg_ele_inx_out_of_range)
    else (if info.num_files == 0
        then ok 0
        else deref info.nc_agg_element >>= sum_loop info.num_files 0 0)

-- ===== src/Agg/Path.antt =====
-- getAggBasePath and getNextAggEleObjPath of api/lib/rcNcGetAggInfo.cpp, and the path of the files
-- that archPartialTimeSeries of api/src/rsNcArchTimeSeries.cpp writes.
use native.Mathlib.Nat.{le_trans}
use irods_netcdf.Base.{
  ℕ, ◌+◌, ◌≤◌, ◌<◌, ◌≡◌, ap, ◌∙◌, true, Option, none, some, List, [], ◌∷◌, ◌++◌, append-nil, arith,
  ltb, if◌then◌else◌, atoi, decimal, starts_digit, atoi-decimal, starts_digit-decimal, strip_prefix,
  strip_prefix-append, ◌≢◌,
}
use irods_netcdf.Status.{Result, ok, ◌>>=◌}
use irods_netcdf.Agg.{NcAggElement}

-- splitPathByKey is a function of iRODS: the directory and the file of a path.
module _ (split_path_by_key : List ℕ → Result (List ℕ × List ℕ)) where
  unfoldable pub get_agg_base_path : List ℕ → Result (List ℕ)
  get_agg_base_path agg_collection =
      split_path_by_key agg_collection >>= λ dir_file. ok (agg_collection ++ (b'/' ∷ dir_file.1))

-- The number behind the base path in the name of a file, if there is one.
number_at : Option (List ℕ) → Option ℕ
number_at none = none
number_at (some tmp_ptr) = if starts_digit tmp_ptr then some (atoi tmp_ptr) else none

pub file_number : List ℕ → List ℕ → Option ℕ
unfolding number_at
file_number base_path obj_path = number_at (strip_prefix base_path obj_path)

pub raise_last : Option ℕ → ℕ → ℕ
raise_last none last_num = last_num
raise_last (some my_int) last_num = if ltb last_num my_int then my_int else last_num

-- The loop over the files for the largest number.
pub last_num_loop : List ℕ → ℕ → List NcAggElement → ℕ
unfolding file_number raise_last
last_num_loop base_path last_num [] = last_num
last_num_loop base_path last_num (x ∷ xs) =
    last_num_loop base_path (raise_last (file_number base_path x.obj_path) last_num) xs

-- getNextAggEleObjPath over the files of the description.
unfoldable pub get_next_agg_ele_obj_path : List ℕ → List NcAggElement → ℕ
unfolding last_num_loop
get_next_agg_ele_obj_path base_path xs = last_num_loop base_path 0 xs + 1

-- snprintf ("%s%-d", basePath, nextNumber)
pub arch_obj_path : List ℕ → ℕ → List ℕ
arch_obj_path base_path next_number = base_path ++ decimal next_number

-- A name that snprintf gave is read back.
file_number-arch_obj_path :
    (base_path : List ℕ) (n : ℕ) → file_number base_path (arch_obj_path base_path n) ≡ some n
unfolding file_number arch_obj_path
file_number-arch_obj_path base n = rw (strip_prefix-append base (decimal n), starts) (ap some reads)
  where
    starts : starts_digit (decimal n) ≡ true
    starts = rw append-nil at (starts_digit-decimal n [])

    reads : atoi (decimal n) ≡ n
    reads = rw append-nil at (atoi-decimal n [] tt)

raise_last-le : (o : Option ℕ) (n : ℕ) → n ≤ raise_last o n
unfolding raise_last
raise_last-le none n = omega arith
raise_last-le (some m) n = ground arith

raise_last_self : (k n : ℕ) (o : Option ℕ) → o ≡ some k → k ≤ raise_last o n
unfolding raise_last
raise_last_self k n none e = absurd (cc)
raise_last_self k n (some m) e = ground arith

last_num_loop-le : (base : List ℕ) (n : ℕ) (xs : List NcAggElement) → n ≤ last_num_loop base n xs
unfolding last_num_loop
last_num_loop-le base n [] = omega arith
last_num_loop-le base n (x ∷ xs) =
    le_trans (raise_last-le (file_number base x.obj_path) n)
      (last_num_loop-le base (raise_last (file_number base x.obj_path) n) xs)

-- Every file of the description has another path than the one that comes next, and than all that
-- follow it.
abbrev pub NoPath : List ℕ → List NcAggElement → Type 0
NoPath path [] = Unit {0}
NoPath path (x ∷ xs) = (x.obj_path ≢ path) × NoPath path xs

fresh_from :
    (base : List ℕ) (n k : ℕ) (xs : List NcAggElement)
    → last_num_loop base n xs + 1 ≤ k
    → NoPath (arch_obj_path base k) xs
unfolding last_num_loop
fresh_from base n k [] h = tt
fresh_from base n k (x ∷ xs) h =
    (other, fresh_from base (raise_last (file_number base x.obj_path) n) k xs h)
  where
    later : raise_last (file_number base x.obj_path) n < k
    later = omega (arith, h, last_num_loop-le base (raise_last (file_number base x.obj_path) n) xs)

    other : x.obj_path ≢ arch_obj_path base k
    other e = omega (
      arith,
      later,
      raise_last_self k n (file_number base x.obj_path)
          (ap (file_number base) e ∙ file_number-arch_obj_path base k),
    )

-- No file of the description has the path of a file that archPartialTimeSeries writes next: the
-- numbers that it gives out are past every number in the collection.
pub get_next_agg_ele_obj_path-NoPath :
    (base_path : List ℕ) (xs : List NcAggElement) (k : ℕ)
    → get_next_agg_ele_obj_path base_path xs ≤ k
    → NoPath (arch_obj_path base_path k) xs
unfolding get_next_agg_ele_obj_path
get_next_agg_ele_obj_path-NoPath base xs k h = fresh_from base 0 k xs h

-- Two files of one archive have two paths.
pub arch_obj_path-injective :
    (base_path : List ℕ) (m n : ℕ) → arch_obj_path base_path m ≡ arch_obj_path base_path n → m ≡ n
arch_obj_path-injective base m n e =
    cc (file_number-arch_obj_path base m, file_number-arch_obj_path base n, ap (file_number base) e)

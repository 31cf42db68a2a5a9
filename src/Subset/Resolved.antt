-- ===== src/Subset/Resolved.antt =====
-- From the texts of a subset to the range of its dimension: resolveSubsetVar and then the dimension
-- loop of getSingleNcVarData (api/lib/rcNcInq.cpp).
use irods_netcdf.Base.{
  ℕ, suc, ◌+◌, ◌<◌, ◌≡◌, refl, Bool, true, false, some, List, [], ◌∷◌, ◌++◌, ℤ, pos, arith, length,
  leb_ℤ, ap, length-append, ◌+ℤ◌, ◌-ℤ◌,
}
use irods_netcdf.Status.{Result, ok, ◌>>=◌}
use irods_netcdf.Inq.{NcGenDimOut, NcGenVarOut, NcInqOut}
use irods_netcdf.Vars.{DimRange}
use irods_netcdf.Subset.{
  NcSubset, Dimensions, find_var, find_var_inx, is_int, long_bound, double_bound, search,
  with_bounds, resolve_subset, resolve_in, resolve_by_kind, get_single_nc_var_data, dim_range,
  out_of_range, minus_one, resolve_loop,
}
use irods_netcdf.Subset.Bounds.{dim_range_unresolved}
use irods_netcdf.Subset.Resolve.{Below, Inside, Above, resolve_loop-Inside, resolve_loop-Below}

dim_range-inside :
    (s : NcSubset) (dim : NcGenDimOut) (b i : ℕ)
    → s.start ≡ pos b
    → s.end ≡ pos (b + i)
    → b + i < dim.array_len
    → dim_range (some s) dim ≡ ok (record { start = pos b; count = pos (i + 1); stride = s.stride })
unfolding dim_range out_of_range ◌+ℤ◌ ◌-ℤ◌
dim_range-inside s dim b i e1 e2 h = ground arith

module _ {O D : Type 0} (env : Dimensions O D) where
  -- The values of a dimension are searched as 64-bit integers (`true`) or as doubles.
  abbrev pub Number : Bool → Type 0
  Number true = ℤ
  Number false = D

  abbrev pub le : (int : Bool) → Number int → Number int → Bool
  le true = leb_ℤ
  le false = env.leb_double

  abbrev pub numbers : (int : Bool) → O → List (Number int)
  numbers true = env.longs
  numbers false = env.doubles

  abbrev pub bound : (int : Bool) → List ℕ → List ℕ → Result (Number int)
  bound true = long_bound env
  bound false = double_bound env

  -- The inputs of the search for a subset: its variable, of an integer type or of float or double, what was
  -- read of it, and the bounds in the texts of the subset.
  pub record Found (int : Bool) (ncid : ℕ) (inq : NcInqOut) (s : NcSubset) (v : NcGenVarOut)
      (out : O) (lo hi : Number int) : Type 0 where
    pub var_found : find_var s.subset_var_name inq.var ≡ some v
    pub kind : is_int v.data_type ≡ some int
    pub read_dims : List DimRange
    pub read_values :
        get_single_nc_var_data env.get_vars ncid (find_var_inx s.subset_var_name inq.var) inq []
        ≡ ok (out, read_dims)
    pub start_bound : bound int v.name s.start_str ≡ ok lo
    pub end_bound : bound int v.name s.end_str ≡ ok hi

  resolve_subset_found :
      (int : Bool) (ncid : ℕ) (inq : NcInqOut) (s : NcSubset) (v : NcGenVarOut) (out : O)
      (lo hi : Number int)
      → Found int ncid inq s v out lo hi
      → resolve_subset env ncid inq s
        ≡ ok (
            with_bounds s
              (resolve_loop (le int lo) (λ x. le int x hi) 0 minus_one minus_one (numbers int out)))
  unfolding resolve_subset resolve_in resolve_by_kind search
  resolve_subset_found true ncid inq s v out lo hi f =
      rw (f.var_found, f.kind, f.read_values, f.start_bound, f.end_bound) refl
  resolve_subset_found false ncid inq s v out lo hi f =
      rw (f.var_found, f.kind, f.read_values, f.start_bound, f.end_bound) refl

  -- For a dimension whose variable is of an integer type, of float or of double, with the comparison that its
  -- type has: where its values are those below the start of the subset, then those in it, of which there is
  -- one, then those past its end, resolving a subset and turning it into the range of its dimension gives exactly the positions of the values in it, with the stride of the subset.
  pub resolve_subset-Inside :
      (int : Bool) (ncid : ℕ) (inq : NcInqOut) (s : NcSubset) (v : NcGenVarOut) (out : O)
      (lo hi x : Number int) (below inside above : List (Number int)) (dim : NcGenDimOut)
      → Found int ncid inq s v out lo hi
      → numbers int out ≡ below ++ (x ∷ inside ++ above)
      → Below (le int lo) (λ y. le int y hi) below
      → Inside (le int lo) (λ y. le int y hi) (x ∷ inside)
      → Above (le int lo) (λ y. le int y hi) above
      → dim.array_len ≡ length (numbers int out)
      → (resolve_subset env ncid inq s >>= λ r. dim_range (some r) dim)
        ≡ ok (record {
          start = pos (length below);
          count = pos (length inside + 1);
          stride = s.stride;
        })
  unfolding with_bounds
  resolve_subset-Inside int ncid inq s v out lo hi x below inside above dim f e b i a l =
      rw
        (
          resolve_subset_found int ncid inq s v out lo hi f,
          e,
          resolve_loop-Inside (le int lo) (λ y. le int y hi) below inside above x b i a,
        )
        (dim_range-inside (with_bounds s (pos (length below), pos (length below + length inside)))
          dim (length below) (length inside) refl refl fits)
    where
      fits : length below + length inside < dim.array_len
      fits = omega (
        arith,
        l,
        ap length e,
        length-append below (x ∷ inside ++ above),
        length-append inside above,
      )

  -- For a dimension whose variable is of an integer type, of float or of double, with the comparison that its
  -- type has: where its values are all below the start of the subset, the subset is not rejected: the range
  -- begins at -1 and is longer than the dimension.
  pub resolve_subset-Below :
      (int : Bool) (ncid : ℕ) (inq : NcInqOut) (s : NcSubset) (v : NcGenVarOut) (out : O)
      (lo hi : Number int) (n : ℕ) (dim : NcGenDimOut)
      → Found int ncid inq s v out lo hi
      → Below (le int lo) (λ y. le int y hi) (numbers int out)
      → length (numbers int out) ≡ suc n
      → dim.array_len ≡ suc n
      → (resolve_subset env ncid inq s >>= λ r. dim_range (some r) dim)
        ≡ ok (record { start = minus_one; count = pos (dim.array_len + 1); stride = s.stride })
  unfolding with_bounds
  resolve_subset-Below int ncid inq s v out lo hi n dim f b l d =
      rw
        (
          resolve_subset_found int ncid inq s v out lo hi f,
          resolve_loop-Below (le int lo) (λ y. le int y hi) (numbers int out) n b l,
        )
        (dim_range_unresolved (with_bounds s (minus_one, pos n)) dim n d refl refl)

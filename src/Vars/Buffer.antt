-- ===== src/Vars/Buffer.antt =====
-- _rsNcGetVarsByType and its buffer: the buffer is sized with the strides of the request, and the
-- library is called without them, since hasStride is never set.
use native.Mathlib.Nat.{mod-eq_of_lt}
use irods_netcdf.Base.{
  ℕ, ◌-◌, ◌^◌, ◌<◌, ◌≡◌, ap, true, false, some, List, arith, ltb, ◌==◌, length, append-nil, map,
}
use irods_netcdf.Status.{ok, fault, ◌>>=◌}
use irods_netcdf.Vars.{
  NcGetVarInp, Kind, NcGet, NcReply, noerr, int_mod, type_case, fill_buffer, read_vars,
  get_size_for_get_vars, rs_nc_get_vars_by_type, DimRange, is_negative,
}
use irods_netcdf.Vars.Size.{
  all_positive, fix_dim, strided_size, count_size, SomeStride, NoStride, get_size_for_get_vars_lem,
  strided_size-le-count_size, strided_size-lt-count_size, strided_size-eq-count_size,
  strided_size-pos,
}

-- A request whose elements fit an int passes the checks on its size.
small_size :
    (ds : List DimRange)
    → all_positive ds ≡ true
    → count_size ds < 2 ^ 31
    → (get_size_for_get_vars ds ≡ ok (strided_size ds, map fix_dim ds))
      × ((strided_size ds == 0) ≡ false)
      × (is_negative (strided_size ds) ≡ false)
small_size ds h small = (
  rw (get_size_for_get_vars_lem ds, h) (rw (mod-eq_of_lt below)),
  ground (arith, strided_size-pos ds),
  ground (arith, strided_size-le-count_size ds h),
)
  where
    below : strided_size ds < int_mod
    below = omega (arith, strided_size-le-count_size ds h)

module _ {V : Type 0} (zero_value : V) (nc_get : NcGet → NcReply V) where
  -- The call of the library for a request.
  abbrev pub vara : NcGetVarInp → Kind → NcGet
  vara inp kind = record {
    kind = kind;
    ncid = inp.ncid;
    varid = inp.varid;
    dims = inp.dims;
    strided = false;
  }

  -- Behind the checks, the buffer has as many elements as the request with its strides.
  reads :
      (inp : NcGetVarInp) (kind : Kind) (size : ℕ) (data_type_pi : List ℕ)
      → all_positive inp.dims ≡ true
      → count_size inp.dims < 2 ^ 31
      → type_case inp.data_type ≡ some (kind, size, data_type_pi)
      → rs_nc_get_vars_by_type zero_value nc_get (some inp) ≡ (
          read_vars zero_value nc_get inp (strided_size inp.dims) inp.dims kind data_type_pi
          >>= λ out. ok (some out))
  unfolding rs_nc_get_vars_by_type
  reads inp kind size data_type_pi h small t =
      let (sized, nonzero, nonneg) = small_size inp.dims h small in
      rw sized (rw (nonzero, nonneg) (rw t))

  fits :
      (written : List V) (len : ℕ)
      → length written ≡ len
      → fill_buffer zero_value nc_get written len ≡ ok written
  unfolding fill_buffer
  fits written len h =
      let whole : ltb len (length written) ≡ false = ground arith in
      let none_left : len - length written ≡ 0 = omega arith in
      rw whole (rw none_left (ap ok (append-nil written)))

  overflows :
      (written : List V) (len : ℕ)
      → len < length written
      → fill_buffer zero_value nc_get written len ≡ fault
  unfolding fill_buffer
  overflows written len h = ground arith

  -- Where no stride is above 1, all counts are positive, their product is below 2^31, the type has a case and
  -- the library writes as many elements as that product, the call returns what the library wrote: as many
  -- elements as the counts say, with the type of the request and its packing name.
  pub rs_nc_get_vars_by_type-NoStride :
      (inp : NcGetVarInp) (kind : Kind) (size : ℕ) (data_type_pi : List ℕ) (written : List V)
      → all_positive inp.dims ≡ true
      → NoStride inp.dims
      → count_size inp.dims < 2 ^ 31
      → type_case inp.data_type ≡ some (kind, size, data_type_pi)
      → nc_get (vara inp kind) ≡ noerr written
      → length written ≡ count_size inp.dims
      → rs_nc_get_vars_by_type zero_value nc_get (some inp)
        ≡ ok (
            some (record {
              data_type_pi = data_type_pi;
              data_type = inp.data_type;
              len = count_size inp.dims;
              buf = written;
            }))
  rs_nc_get_vars_by_type-NoStride inp kind size data_type_pi written h n small t e l =
      rw (reads inp kind size data_type_pi h small t, strided_size-eq-count_size inp.dims h n)
        (unfold read_vars in rw (e, read_vars) (rw (fits written (count_size inp.dims) l)))

  -- Where a dimension is read at a stride, the library writes past the end of the buffer.
  pub rs_nc_get_vars_by_type-SomeStride :
      (inp : NcGetVarInp) (kind : Kind) (size : ℕ) (data_type_pi : List ℕ) (written : List V)
      → all_positive inp.dims ≡ true
      → SomeStride inp.dims
      → count_size inp.dims < 2 ^ 31
      → type_case inp.data_type ≡ some (kind, size, data_type_pi)
      → nc_get (vara inp kind) ≡ noerr written
      → length written ≡ count_size inp.dims
      → rs_nc_get_vars_by_type zero_value nc_get (some inp) ≡ fault
  rs_nc_get_vars_by_type-SomeStride inp kind size data_type_pi written h n small t e l =
      rw (reads inp kind size data_type_pi h small t) (
        unfold read_vars in
        rw (e, read_vars) (rw (overflows written (strided_size inp.dims) longer)))
    where
      longer : strided_size inp.dims < length written
      longer = omega (arith, l, strided_size-lt-count_size inp.dims h n)

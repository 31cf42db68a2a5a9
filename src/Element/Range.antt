-- ===== src/Element/Range.antt =====
-- What the time range of a file (api/src/rsNcGetAggElement.cpp) says of its time steps.
use irods_netcdf.Base.{
  ℕ, ◌-◌, ◌<◌, ◌≤◌, ◌≡◌, refl, ap, true, some, ℤ, pos, negsuc, ◌-ℤ◌, inl, inr, arith,
}
use irods_netcdf.Status.{Result, ok, code_minus, netcdf_get_vars_err}
use irods_netcdf.NcType.{
  NcType, nc_byte, nc_char, nc_short, nc_int, nc_float, nc_double, nc_ubyte, nc_ushort, nc_uint,
  nc_int64, nc_uint64, nc_string, other,
}
use irods_netcdf.Inq.{NcGenDimOut, NcGenVarOut, NcInqOut}
use irods_netcdf.Subset.{find_var}
use irods_netcdf.Arch.{has_int_case, find_time_dim}
use irods_netcdf.Agg.{NcAggElement}
use irods_netcdf.Element.{
  ElementLib, DataObjInfo, bits, uint_of_short, uint_of_bits, int_of, get_nc_int_var, time_element,
  var_found, dim_found, time_dim, inquired, file_opened, agg_element_of_file, to_uint,
}

-- A file as the library has it in the state s: it opens as ncid, and its inquiry finds the dimension d and the
-- variable v of time, which is of a type of numbers.
pub record TimeFile {S R : Type 0} (lib : ElementLib S R) (info : DataObjInfo) (s : S) (ncid : ℕ)
    (s2 : S) (d : NcGenDimOut) (v : NcGenVarOut) : Type 0 where
  pub s1 : S
  pub inq : NcInqOut
  pub opens : lib.nc_open info.file_path s ≡ (inr ncid, s1)
  pub inquires : lib.nc_inq ncid s1 ≡ (ok inq, s2)
  pub has_dim : time_dim inq (find_time_dim 0 inq.dim) ≡ some d
  pub has_var : find_var d.name inq.var ≡ some v
  pub numbers : has_int_case v.data_type ≡ true

-- The times from the first to the last step of the file.
pub record CoversTimes (n : ℕ) (time : ℕ → ℕ) (e : NcAggElement) : Type 0 where
  pub steps : e.arraylen ≡ n
  pub starts : e.start_time ≡ time 0
  pub ends : e.end_time ≡ time (n - 1)
  pub bounds : (i : ℕ) → i < n → (e.start_time ≤ time i) × (time i ≤ e.end_time)

-- The values of an integer type that the casts of getNcIntVar keep are below this.
abbrev pub uint_limit : NcType → ℕ
uint_limit nc_short = 32768
uint_limit nc_ushort = 32768
uint_limit nc_int = 4294967296
uint_limit nc_uint = 4294967296
uint_limit nc_int64 = 4294967296
uint_limit nc_uint64 = 4294967296
uint_limit t = 0

uint_of_bits-fits : (t : NcType) (n : ℕ) → n < uint_limit t → uint_of_bits t n ≡ n
unfolding uint_of_bits uint_of_short
uint_of_bits-fits nc_short n h = ground arith
uint_of_bits-fits nc_ushort n h = ground arith
uint_of_bits-fits nc_int n h = omega arith
uint_of_bits-fits nc_uint n h = omega arith
uint_of_bits-fits nc_int64 n h = omega arith
uint_of_bits-fits nc_uint64 n h = omega arith
uint_of_bits-fits nc_byte n h = absurd (omega arith)
uint_of_bits-fits nc_char n h = absurd (omega arith)
uint_of_bits-fits nc_float n h = absurd (omega arith)
uint_of_bits-fits nc_double n h = absurd (omega arith)
uint_of_bits-fits nc_ubyte n h = absurd (omega arith)
uint_of_bits-fits nc_string n h = absurd (omega arith)
uint_of_bits-fits (other k) n h = absurd (omega arith)

pos_pred : (n : ℕ) → 0 < n → pos n -ℤ pos 1 ≡ pos (n - 1)
unfolding ◌-ℤ◌
pos_pred n h = ground arith

module _ {S R : Type 0} (lib : ElementLib S R) (info : DataObjInfo) (s : S) (ncid : ℕ) (s2 : S)
    (d : NcGenDimOut) (v : NcGenVarOut) (file : TimeFile lib info s ncid s2 d v) where
  element_lem :
      agg_element_of_file lib (some info) s
      ≡ (ok (time_element lib s2 ncid info d v), lib.nc_close ncid s2)
  unfolding agg_element_of_file file_opened inquired dim_found var_found
  element_lem = rw (file.opens, file.inquires, file.has_dim, file.has_var) refl

  int_var_lem :
      (inx n : ℕ)
      → lib.nc_get_vara s2 ncid v.id (pos inx) ≡ inr (bits n)
      → n < uint_limit v.data_type
      → get_nc_int_var lib s2 ncid v (pos inx) ≡ n
  unfolding get_nc_int_var int_of
  int_var_lem inx n h fits = rw (file.numbers, h) (uint_of_bits-fits v.data_type n fits)

  module _ (times : ℕ → ℕ)
      (reads : (i : ℕ)
        → i < d.array_len
        → lib.nc_get_vara s2 ncid v.id (pos i) ≡ inr (bits (times i)))
      (fit : (i : ℕ) → i < d.array_len → times i < uint_limit v.data_type)
      (ascending : (i j : ℕ) → i ≤ j → j < d.array_len → times i ≤ times j) where
    -- Where a file with at least one time step can be read, its times are integers that ascend, and each is
    -- below 2^15 in a variable of type short or ushort, and below 2^32 in one of type int, uint, int64 or
    -- uint64, _rsNcGetAggElement gives an element with the number of its steps, that starts with the time of
    -- its first step and ends with that of its last, and every time of the file lies between them. (Larger
    -- times change in the casts of getNcIntVar, and of floating ones the fraction is lost.)
    pub agg_element_of_file-CoversTimes :
        0 < d.array_len
        → (e : NcAggElement) × ((agg_element_of_file lib (some info) s).0 ≡ ok e)
          × CoversTimes d.array_len times e
    unfolding time_element
    agg_element_of_file-CoversTimes positive =
        let first = int_var_lem 0 (times 0) (reads 0 positive) (fit 0 positive) in
        let last : get_nc_int_var lib s2 ncid v (pos d.array_len -ℤ pos 1)
            ≡ times (d.array_len - 1) =
          rw (pos_pred d.array_len positive) (
            int_var_lem (d.array_len - 1) (times (d.array_len - 1))
              (reads (d.array_len - 1) (omega arith)) (fit (d.array_len - 1) (omega arith))) in
        (
          time_element lib s2 ncid info d v,
          ap (λ (p : Result NcAggElement × S). p.0) element_lem,
          record {
            steps = refl;
            starts = first;
            ends = last;
            bounds = λ i h. (
              rw first (ascending 0 i (omega arith) h),
              rw last (ascending i (d.array_len - 1) (omega arith) (omega arith)),
            );
          },
        )

  -- A file without time steps is asked for the time at the position -1: where the library refuses that, the
  -- error is given as the end of the time range, in an element without an error.
  pub agg_element_of_file-empty :
      (status : ℤ)
      → d.array_len ≡ 0
      → lib.nc_get_vara s2 ncid v.id (negsuc 0) ≡ inl status
      → (e : NcAggElement) × ((agg_element_of_file lib (some info) s).0 ≡ ok e)
        × (e.arraylen ≡ 0)
        × (e.end_time ≡ to_uint (lib.value_of (code_minus netcdf_get_vars_err status)))
  unfolding time_element get_nc_int_var int_of ◌-ℤ◌
  agg_element_of_file-empty status empty refused = (
    time_element lib s2 ncid info d v,
    ap (λ (p : Result NcAggElement × S). p.0) element_lem,
    empty,
    rw (empty, file.numbers, refused) refl,
  )

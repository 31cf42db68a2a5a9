-- ===== src/Tests/Element.antt =====
-- The time range of a file with the times 10, 20, … of a time variable; the state is the id of the open file.
use irods_netcdf.Base.{
  ℕ, suc, ◌+◌, ◌-◌, ◌*◌, ◌≤◌, ◌<◌, ◌≡◌, ◌≢◌, refl, ◌==◌, if◌then◌else◌, Bool, true, false, Option,
  none, some, List, [], ◌∷◌, ℤ, pos, negsuc, ◌⊎◌, inl, inr, codes, arith,
}
use irods_netcdf.Status.{ok, err, fault, foreign}
use irods_netcdf.Inq.{NcGenDimOut, NcInqOut}
use irods_netcdf.Subset.{find_var}
use irods_netcdf.Arch.{find_time_dim}
use irods_netcdf.Agg.{NcAggElement}
use irods_netcdf.Close.{Host, local_host, update}
use irods_netcdf.Element.{
  Tm, time_to_asci, ElementLib, ReadValue, bits, DataObjInfo, agg_element_of_file, ElementEnv,
  rs_nc_get_agg_element, time_dim, to_uint,
}
use irods_netcdf.Element.Range.{
  TimeFile, CoversTimes, agg_element_of_file-CoversTimes, agg_element_of_file-empty,
}
use irods_netcdf.Element.Closed.{Opened, OpenIds, Restored, rs_nc_get_agg_element-Restored}
use irods_netcdf.Tests.Open.{with_use, no_use, empty, free-Freed, with_use-Taken}
use irods_netcdf.Tests.Extend.{time_var, source}

abbrev dim_of : ℕ → NcGenDimOut
dim_of n = record { array_len = n; id = pos 0; myint = pos 0; name = codes "Time" }

abbrev var_of_time : ℕ → NcInqOut
var_of_time n = record source {
  dim = dim_of n ∷ [];
  var = record time_var { name = codes "Time" } ∷ [];
}

abbrev new_year : Tm
new_year = record { tm_year = 101; tm_mon = 0; tm_mday = 2; tm_hour = 3; tm_min = 4; tm_sec = 5 }

new_year_text : time_to_asci (some new_year) ≡ codes "2001-01-02T03:04:05"
unfolding time_to_asci irods_netcdf.Base.decimal
new_year_text = refl

abbrev value_at : ℤ → ℤ ⊎ ReadValue ℕ
value_at (pos i) = inr (bits (10 * suc i))
value_at (negsuc n) = inl (negsuc 39)

-- A file with n time steps.
-- The library has one file open at most, and refuses another.
abbrev opened : Option ℕ → (ℤ ⊎ ℕ) × Option ℕ
opened none = (inr 65536, some 65536)
opened (some n) = (inl (negsuc 34), some n)

abbrev closed : ℕ → Option ℕ → Option ℕ
closed ncid none = none
closed ncid (some n) = if (n == ncid) then none else some n

abbrev id_is_open : Option ℕ → ℕ → Bool
id_is_open none n = false
id_is_open (some m) n = n == m

abbrev file_lib : ℕ → ElementLib (Option ℕ) ℕ
file_lib n = record {
  nc_open = λ path. opened;
  nc_close = closed;
  nc_inq = λ ncid s. (ok (var_of_time n), s);
  nc_get_vara = λ s ncid varid inx. value_at inx;
  uint_of_real = λ v. v;
  value_of = λ e. negsuc 0;
  localtime = λ t. some new_year;
}

abbrev info : DataObjInfo
info = record { file_path = codes "/vault/a.nc"; obj_path = codes "/zone/a.nc" }

a_TimeFile :
    (n : ℕ)
    → TimeFile
        (file_lib n)
        info
        none
        65536
        (some 65536)
        (dim_of n)
        (record time_var { name = codes "Time" })
unfolding time_dim find_var find_time_dim irods_netcdf.Base.strcasecmp_eq
    irods_netcdf.Base.strcmp_eq
a_TimeFile n = record {
  s1 = some 65536;
  inq = var_of_time n;
  opens = refl;
  inquires = refl;
  has_dim = refl;
  has_var = refl;
  numbers = refl;
}

agg_element_of_file-CoversTimes_example :
    (e : NcAggElement) × ((agg_element_of_file (file_lib 3) (some info) none).0 ≡ ok e)
    × CoversTimes 3 (λ i. 10 * suc i) e
agg_element_of_file-CoversTimes_example =
    agg_element_of_file-CoversTimes (file_lib 3) info none 65536 (some 65536) (dim_of 3)
      (record time_var { name = codes "Time" }) (a_TimeFile 3) (λ i. 10 * suc i) (λ i h. refl)
      (λ i h. omega arith) (λ i j h k. omega arith) (omega arith)

agg_element_of_file-empty_example :
    (e : NcAggElement) × ((agg_element_of_file (file_lib 0) (some info) none).0 ≡ ok e)
    × (e.arraylen ≡ 0)
    × (e.end_time ≡ to_uint (negsuc 0))
agg_element_of_file-empty_example =
    agg_element_of_file-empty (file_lib 0) info none 65536 (some 65536) (dim_of 0)
      (record time_var { name = codes "Time" }) (a_TimeFile 0) (negsuc 39) refl refl

abbrev env_at : Host → ElementEnv
env_at h = record {
  zone_of = λ path. local_host;
  host_of = λ d. h;
  info_of = λ d. some info;
  data_obj_open = λ path t. (ok 5, update 5 with_use t);
  free_l1desc = λ inx t. update inx no_use t;
  rc_nc_get_agg_element = λ conn path. err (foreign (negsuc 0));
}

ok-ne-fault {ℓ} : {A : Type ℓ} {a : A} → ok a ≢ fault
ok-ne-fault h = cc

by_opened : (s : Option ℕ) → Opened id_is_open s (opened s)
by_opened none = (refl, refl, λ n ne. ground arith)
by_opened (some m) = λ n. refl

by_closed :
    (ncid : ℕ) (s : Option ℕ) → id_is_open s ncid ≡ true → id_is_open (closed ncid s) ncid ≡ false
by_closed ncid none h = refl
by_closed ncid (some m) h = let same : (m == ncid) ≡ true = ground arith in rw same refl

by_closed_other :
    (ncid : ℕ) (s : Option ℕ) (n : ℕ)
    → id_is_open s ncid ≡ true
    → n ≢ ncid
    → id_is_open (closed ncid s) n ≡ id_is_open s n
by_closed_other ncid none n h ne = refl
by_closed_other ncid (some m) n h ne =
    let same : (m == ncid) ≡ true = ground arith in
    let different : (n == m) ≡ false = ground arith in rw (same, different) refl

file_ids : OpenIds (file_lib 3) id_is_open
file_ids = record {
  by_open = λ path. by_opened;
  by_close = by_closed;
  by_close_other = by_closed_other;
  by_inq = λ ncid s n. refl;
  inq_returns = λ ncid s. ok-ne-fault;
}

rs_nc_get_agg_element-Restored_example :
    Restored id_is_open empty none
      (rs_nc_get_agg_element (file_lib 3) (env_at local_host) (codes "/zone/a.nc") empty none)
rs_nc_get_agg_element-Restored_example =
    rs_nc_get_agg_element-Restored (file_lib 3) id_is_open file_ids (env_at local_host) free-Freed
      (codes "/zone/a.nc") empty none (λ d. tt) with_use-Taken

-- ===== src/Tests/Calls.antt =====
-- The microservices that open and close, with calls that give back what they were asked for.
use irods_netcdf.Base.{ℕ, ◌≡◌, refl, none, some, ℤ, pos, negsuc, codes}
use irods_netcdf.Status.{Result, ok, err, fault, code, foreign, sys_internal_null_input_err}
use irods_netcdf.Rule.Calls.{
  OpenCall, CallParam, str_ms_t, int_ms_t, msi_nc_open, msi_nc_open_group, msi_nc_close,
}

abbrev parse : CallParam ℕ → ℤ
parse (int_ms_t n) = n
parse _ = negsuc 315999

abbrev its_mode : OpenCall ℕ → Result ℤ
its_mode inp = ok inp.mode

mode_passed :
    msi_nc_open 0 1088 parse its_mode
      (some tt)
      (some (str_ms_t (codes "/z/a.nc")))
      (some (int_ms_t (pos 1)))
    ≡ ok (pos 1)
unfolding msi_nc_open
mode_passed = refl

mode_refused :
    msi_nc_open 0 1088 parse its_mode
      (some tt)
      (some (str_ms_t (codes "/z/a.nc")))
      (some (int_ms_t (negsuc 4)))
    ≡ err (foreign (negsuc 4))
unfolding msi_nc_open
mode_refused = refl

no_group_name :
    msi_nc_open_group 0 1088 parse its_mode (some tt) (some (int_ms_t (pos 5))) none ≡ fault
unfolding msi_nc_open_group
no_group_name = refl

nothing_to_close :
    msi_nc_close 0 1088 parse (λ inp. ok tt) (some tt) none ≡ err (code sys_internal_null_input_err)
unfolding msi_nc_close
nothing_to_close = refl

-- ===== src/Tests/Inquire.antt =====
-- The microservices that inquire, with calls that give back what they were asked for.
use irods_netcdf.Base.{ℕ, ◌≡◌, refl, none, some, [], ℤ, pos, negsuc, codes}
use irods_netcdf.Status.{ok, err, code, netcdf_invalid_param_type}
use irods_netcdf.Rule.Inquire.{
  InqParam, str_ms_t, int_ms_t, msi_nc_inq_id, msi_nc_inq_with_id, msi_nc_inq,
}

abbrev parse : InqParam ℕ → ℤ
parse (int_ms_t n) = n
parse _ = negsuc 315999

asked_by_name :
    msi_nc_inq_id 0 1088
      (λ s. pos 0)
      parse
      (λ inp. ok inp)
      (some tt)
      (some (str_ms_t (codes "lat")))
      (some (int_ms_t (pos 1)))
      (some (int_ms_t (pos 5)))
    ≡ ok (record {
      param_type = pos 1;
      ncid = pos 5;
      my_id = pos 0;
      name = codes "lat";
      cond_input = 0;
    })
unfolding msi_nc_inq_id
asked_by_name = refl

unknown_type :
    msi_nc_inq_with_id 0 1088
      (λ s. pos 0)
      parse
      (λ inp. ok inp)
      (some tt)
      (some (int_ms_t (pos 3)))
      (some (int_ms_t (pos 2)))
      none
    ≡ err (code netcdf_invalid_param_type)
unfolding msi_nc_inq_with_id
unknown_type = refl

-- An error of parseMspForPosInt is sent as the id of the file.
error_sent :
    msi_nc_inq 0 1088 (λ s. pos 0) parse (λ ncid. ok ncid) (some tt) (some (str_ms_t []))
    ≡ ok (negsuc 315999)
unfolding msi_nc_inq
error_sent = refl

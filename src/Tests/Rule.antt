-- ===== src/Tests/Rule.antt =====
-- The microservices on the answer of an inquiry with two dimensions and a variable that has one of them.
use irods_netcdf.Base.{
  ℕ, ◌≡◌, refl, some, List, [], ◌∷◌, ℤ, pos, negsuc, get_elem?, strcmp_eq, codes, arith,
}
use irods_netcdf.Status.{ok, err, fault, code, ◌>>=◌, deref, netcdf_var_count_out_of_range}
use irods_netcdf.NcType.{nc_float}
use irods_netcdf.Inq.{NcGenDimOut, NcGenVarOut, NcInqOut}
use irods_netcdf.Subset.{find_var}
use irods_netcdf.Rule.{
  MsParam, nc_inq_out_ms_t, str_ms_t, int_ms_t, matched, msi_nc_get_ndims_in_inq_out,
  msi_nc_get_var_id_in_inq_out,
}
use irods_netcdf.Rule.Dims.{msi_nc_get_dim_name_in_inq_out, msi_nc_get_dim_len_in_inq_out}
use irods_netcdf.Rule.Dims.Found.{first_dim, msi_nc_get_dim_name_in_inq_out-var}

abbrev dim_of : ℤ → ℕ → List ℕ → NcGenDimOut
dim_of id n name = record { array_len = n; id = id; myint = pos 0; name = name }

abbrev depth : NcGenVarOut
depth = record {
  data_type = nc_float;
  id = pos 4;
  myint = pos 0;
  name = codes "depth";
  att = [];
  dim_id = 1 ∷ [];
}

abbrev two_dims : NcInqOut
two_dims = record {
  unlimdimid = negsuc 0;
  format = 1;
  dim = dim_of (pos 0) 10 (codes "time") ∷ dim_of (pos 1) 20 (codes "lat") ∷ [];
  var = depth ∷ [];
  gatt = [];
}

abbrev parse : MsParam → ℤ
parse (int_ms_t n) = n
parse _ = negsuc 315999

msi_nc_get_dim_name_in_inq_out-var_example :
    msi_nc_get_dim_name_in_inq_out parse
      (some (nc_inq_out_ms_t two_dims))
      (some (int_ms_t (pos 0)))
      (some (str_ms_t (codes "depth")))
      (some tt)
    ≡ (deref (get_elem? depth.dim_id 0) >>= λ id.
        matched (first_dim (pos id) two_dims.dim) >>= λ d. ok (str_ms_t d.name))
unfolding find_var strcmp_eq
msi_nc_get_dim_name_in_inq_out-var_example =
    msi_nc_get_dim_name_in_inq_out-var parse two_dims (int_ms_t (pos 0)) 0 (codes "depth") [] []
      depth refl (omega arith) refl refl refl refl refl

lat_found :
    msi_nc_get_dim_name_in_inq_out parse
      (some (nc_inq_out_ms_t two_dims))
      (some (int_ms_t (pos 0)))
      (some (str_ms_t (codes "depth")))
      (some tt)
    ≡ ok (str_ms_t (codes "lat"))
unfolding msi_nc_get_dim_name_in_inq_out strcmp_eq
lat_found = refl

-- The position 1 is below the two dimensions of the file, and the variable has one.
read_outside :
    msi_nc_get_dim_name_in_inq_out parse
      (some (nc_inq_out_ms_t two_dims))
      (some (int_ms_t (pos 1)))
      (some (str_ms_t (codes "depth")))
      (some tt)
    ≡ fault
unfolding msi_nc_get_dim_name_in_inq_out strcmp_eq
read_outside = refl

-- The length of the second dimension is refused, since there is one variable.
second_refused :
    msi_nc_get_dim_len_in_inq_out parse
      (some (nc_inq_out_ms_t two_dims))
      (some (int_ms_t (pos 1)))
      (some (str_ms_t (codes "null")))
      (some tt)
    ≡ err (code netcdf_var_count_out_of_range)
unfolding msi_nc_get_dim_len_in_inq_out
second_refused = refl

its_ndims :
    msi_nc_get_ndims_in_inq_out
      (some (nc_inq_out_ms_t two_dims))
      (some (str_ms_t (codes "depth")))
      (some tt)
    ≡ ok (int_ms_t (pos 1))
unfolding msi_nc_get_ndims_in_inq_out strcmp_eq
its_ndims = refl

its_id :
    msi_nc_get_var_id_in_inq_out
      (some (nc_inq_out_ms_t two_dims))
      (some (int_ms_t (pos 0)))
      (some tt)
    ≡ ok (int_ms_t (pos 4))
unfolding msi_nc_get_var_id_in_inq_out
its_id = refl

-- ===== src/Tests/Arrays.antt =====
-- Attributes by name, and elements of arrays.
use irods_netcdf.Base.{ℕ, ◌≡◌, refl, some, List, [], ◌∷◌, pos, negsuc, codes, strcmp_eq}
use irods_netcdf.Status.{
  ok, err, fault, code, netcdf_unmatched_name_err, netcdf_invalid_data_type,
  netcdf_dim_mismatch_err,
}
use irods_netcdf.NcType.{NcType, nc_char, nc_float, nc_int, nc_short}
use irods_netcdf.Inq.{NcGenAttOut, NcGenVarOut, NcInqOut}
use irods_netcdf.Rule.{nc_inq_out_ms_t, str_ms_t, int_ms_t}
use irods_netcdf.Rule.Atts.{msi_nc_get_att_val_in_inq_out}
use irods_netcdf.Rule.Arrays.{
  ArrayParam, nc_get_var_out_ms_t, as_int_element, msi_nc_get_element_in_array,
  msi_nc_get_array_len,
}

abbrev att : List ℕ → NcGenAttOut
att name = record { data_type = nc_char; id = pos 0; length = 1; name = name; value = 120 ∷ [] }

abbrev with_units : NcGenVarOut
with_units = record {
  data_type = nc_float;
  id = pos 0;
  myint = pos 0;
  name = codes "t";
  att = att (codes "units") ∷ [];
  dim_id = [];
}

abbrev file_with : List NcGenAttOut → NcInqOut
file_with gatt = record {
  unlimdimid = negsuc 0;
  format = 1;
  dim = [];
  var = with_units ∷ [];
  gatt = gatt;
}

-- The file has no attributes of its own, and its variable has the one that is asked for.
units_not_found :
    msi_nc_get_att_val_in_inq_out
      (some (nc_inq_out_ms_t (file_with [])))
      (some (str_ms_t (codes "units")))
      (some (str_ms_t (codes "t")))
    ≡ err (code netcdf_unmatched_name_err)
unfolding msi_nc_get_att_val_in_inq_out strcmp_eq
units_not_found = refl

-- The file has two attributes, and its variable one.
read_outside :
    msi_nc_get_att_val_in_inq_out
      (some (nc_inq_out_ms_t (file_with (att (codes "a") ∷ att (codes "b") ∷ []))))
      (some (str_ms_t (codes "long_name")))
      (some (str_ms_t (codes "t")))
    ≡ fault
unfolding msi_nc_get_att_val_in_inq_out strcmp_eq
read_outside = refl

by_position :
    msi_nc_get_att_val_in_inq_out
      (some (nc_inq_out_ms_t (file_with [])))
      (some (int_ms_t (pos 0)))
      (some (str_ms_t (codes "t")))
    ≡ ok (att (codes "units"))
unfolding msi_nc_get_att_val_in_inq_out strcmp_eq
by_position = refl

abbrev ints : NcType → ArrayParam ℕ
ints t =
    nc_get_var_out_ms_t
      (some (record { data_type_pi = []; data_type = t; len = 2; buf = 5 ∷ 6 ∷ [] }))

second_int :
    msi_nc_get_element_in_array (some (ints nc_int)) (some (pos 1)) (some tt)
    ≡ ok (as_int_element 6)
unfolding msi_nc_get_element_in_array
second_int = refl

no_third :
    msi_nc_get_element_in_array (some (ints nc_int)) (some (pos 2)) (some tt)
    ≡ err (code netcdf_dim_mismatch_err)
unfolding msi_nc_get_element_in_array
no_third = refl

no_short :
    msi_nc_get_element_in_array (some (ints nc_short)) (some (pos 1)) (some tt)
    ≡ err (code netcdf_invalid_data_type)
unfolding msi_nc_get_element_in_array
no_short = refl

two_long : msi_nc_get_array_len (some (ints nc_int)) (some tt) ≡ ok (pos 2)
unfolding msi_nc_get_array_len
two_long = refl

-- ===== src/Tests/Vars.antt =====
-- Inputs for the theorems on reading variables: a request of 2 by 6 elements, without strides and
-- with a stride of 2 along the second dimension.
use irods_netcdf.Base.{ℕ, ◌≡◌, refl, some, inl, inr, List, [], ◌∷◌, arith, pos, codes}
use irods_netcdf.Status.{ok, fault}
use irods_netcdf.NcType.{nc_int}
use irods_netcdf.Vars.{
  DimRange, NcGetVarInp, NcGet, NcReply, noerr, int, type_case, fix_stride, rs_nc_get_vars_by_type,
}
use irods_netcdf.Vars.Size.{all_positive, count_size}
use irods_netcdf.Vars.Buffer.{rs_nc_get_vars_by_type-NoStride, rs_nc_get_vars_by_type-SomeStride}

abbrev range : ℕ → ℕ → DimRange
range count stride = record { start = pos 0; count = pos count; stride = pos stride }

abbrev request : ℕ → NcGetVarInp
request stride = record {
  data_type = nc_int;
  ncid = 3;
  varid = pos 1;
  dims = range 2 1 ∷ range 6 stride ∷ [];
}

abbrev values : List ℕ
values = 0 ∷ 1 ∷ 2 ∷ 3 ∷ 4 ∷ 5 ∷ 6 ∷ 7 ∷ 8 ∷ 9 ∷ 10 ∷ 11 ∷ []

abbrev nc_get : NcGet → NcReply ℕ
nc_get call = noerr values

rs_nc_get_vars_by_type-NoStride_example :
    rs_nc_get_vars_by_type 0 nc_get (some (request 1))
    ≡ ok (
        some (record {
          data_type_pi = codes "intDataArray_PI";
          data_type = nc_int;
          len = 12;
          buf = values;
        }))
unfolding all_positive count_size type_case fix_stride
rs_nc_get_vars_by_type-NoStride_example =
    rs_nc_get_vars_by_type-NoStride 0 nc_get (request 1) int 4 (codes "intDataArray_PI") values refl
      (refl, (refl, tt)) (omega arith) refl refl refl

rs_nc_get_vars_by_type-SomeStride_example :
    rs_nc_get_vars_by_type 0 nc_get (some (request 2)) ≡ fault
unfolding all_positive count_size type_case fix_stride
rs_nc_get_vars_by_type-SomeStride_example =
    rs_nc_get_vars_by_type-SomeStride 0 nc_get (request 2) int 4 (codes "intDataArray_PI") values
      refl (inr (inl (omega arith, omega arith))) (omega arith) refl refl refl

-- ===== src/Coll/Whole.antt =====
-- _rsNcGetVarsByTypeForColl (api/src/rsNcGetVarsByType.cpp) as a whole, for a request of one time step
-- after the other.
use irods_netcdf.Base.{ℕ, ◌*◌, ◌^◌, ◌<◌, ◌≡◌, some, List, pos, length, get_elem?}
use irods_netcdf.Status.{ok}
use irods_netcdf.NcType.{NcType}
use irods_netcdf.Inq.{NcInqOut}
use irods_netcdf.Vars.{DimRange, NcGetVarInp, get_size_for_get_vars}
use irods_netcdf.Coll.{OpenedAggInfo, get_time_inx_in_var}

-- A request for the time steps from s to s + c - 1, of `width` elements each, with a stride of 1 along
-- the time, on a collection of which the first file is opened and inquired.
pub record TimeRequest (inp : NcGetVarInp) (o : OpenedAggInfo) (inq0 : NcInqOut) (t width s c : ℕ)
    : Type 0 where
  pub ncid0 : ℕ
  pub opened : o.obj_ncid0 ≡ pos ncid0
  pub inquired : o.nc_inq_out0 ≡ some inq0
  pub time_inx : get_time_inx_in_var inq0 inp.varid ≡ some t
  pub has_dim : t < length inp.dims
  pub range : get_elem? inp.dims t ≡ some (record { start = pos s; count = pos c; stride = pos 1 })
  pub fixed_dims : List DimRange
  pub size : get_size_for_get_vars inp.dims ≡ ok (c * width, fixed_dims)
  pub some_step : 0 < c
  pub some_element : 0 < width
  pub fits_int : c * width < 2 ^ 31

-- ===== src/Server/Library.antt =====
-- What is asked of the netCDF library for an open file: _rsNcInqId, _rsNcInqWithId and _rsNcInqGrps of
-- api/src/rsNcInqId.cpp, api/src/rsNcInqWithId.cpp and api/src/rsNcInqGrps.cpp.
use irods_netcdf.Base.{ℕ, zero, suc, List, [], ◌∷◌, ℤ, ◌⊎◌, Bool}
use irods_netcdf.Status.{
  Result, ok, err, ◌>>=◌, code, or_fail, netcdf_invalid_param_type, netcdf_inq_id_err,
  netcdf_inq_err,
}
use irods_netcdf.NcType.{NcType, other}
use irods_netcdf.Inq.Query.{NcLib}

-- NC_VAR_T, NC_DIM_T, or another number.
pub data ParamType : Type 0 where
  nc_var_t nc_dim_t : ParamType
  no_type : ℕ → ParamType

-- ncInqIdInp_t
pub record NcInqIdInp : Type 0 where
  pub param_type : ParamType
  pub ncid : ℤ
  pub myid : ℤ
  pub name : List ℕ
  pub native : Bool

-- ncInqWithIdOut_t; the array is one of ndim entries.
pub record NcInqWithIdOut : Type 0 where
  pub mylong : ℕ
  pub data_type : NcType
  pub natts : ℕ
  pub name : List ℕ
  pub int_array : List ℕ

-- _rsNcInqId
unfoldable pub inq_id : NcLib → NcInqIdInp → Result ℤ
inq_id lib inp = elim inp.param_type [
  | nc_var_t ↦ or_fail netcdf_inq_id_err (lib.nc_inq_varid inp.name)
  | nc_dim_t ↦ or_fail netcdf_inq_id_err (lib.nc_inq_dimid inp.name)
  | no_type n ↦ err (code netcdf_invalid_param_type)
]

-- The type 0 that is left where a dimension is asked for.
abbrev pub no_nc_type : NcType
no_nc_type = other 0

-- _rsNcInqWithId, for a name and an ncInqWithIdOut that are not null.
unfoldable pub inq_with_id : NcLib → NcInqIdInp → Result NcInqWithIdOut
inq_with_id lib inp = elim inp.param_type [
  | nc_dim_t ↦ or_fail netcdf_inq_id_err (lib.nc_inq_dim inp.myid) >>= λ d.
      ok (record { mylong = d.1; data_type = no_nc_type; natts = 0; name = d.0; int_array = [] })
  | nc_var_t ↦ or_fail netcdf_inq_id_err (lib.nc_inq_var inp.myid) >>= λ v. ok (record {
    mylong = 0;
    data_type = v.data_type;
    natts = v.natts;
    name = v.name;
    int_array = v.dim_ids;
  })
  | no_type n ↦ err (code netcdf_invalid_param_type)
]

-- The calls on groups: nc_inq_grps without and with an array, and the name of a group.
pub record NcGrpLib : Type 0 where
  pub nc_inq_numgrps : ℤ ⊎ ℕ
  pub nc_inq_grps : ℤ ⊎ List ℤ
  pub nc_inq_grpname_len : ℤ → ℤ ⊎ ℕ
  pub nc_inq_grpname_full : ℤ → ℤ ⊎ List ℕ

-- ncInqGrpsInp_t
pub record NcInqGrpsInp : Type 0 where
  pub ncid : ℤ
  pub native : Bool

-- The loop over the groups; a failure frees the names that are there.
unfoldable pub grp_names : NcGrpLib → List ℤ → Result (List (List ℕ))
grp_names lib [] = ok []
grp_names lib (g ∷ gs) = or_fail netcdf_inq_err (lib.nc_inq_grpname_len g) >>= λ len.
    or_fail netcdf_inq_err (lib.nc_inq_grpname_full g) >>= λ name.
    grp_names lib gs >>= λ names. ok (name ∷ names)

unfoldable pub grps_of : NcGrpLib → ℕ → Result (List (List ℕ))
unfolding grp_names
grps_of lib zero = ok []
grps_of lib (suc n) = or_fail netcdf_inq_err lib.nc_inq_grps >>= λ grps. grp_names lib grps

-- _rsNcInqGrps: grpName with its ngrps names.
unfoldable pub inq_grps : NcGrpLib → Result (List (List ℕ))
unfolding grps_of
inq_grps lib = or_fail netcdf_inq_err lib.nc_inq_numgrps >>= λ n. grps_of lib n

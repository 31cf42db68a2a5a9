-- ===== src/Element.antt =====
-- The time range of one file of a series: _rsNcGetAggElement and rsNcGetAggElement of
-- api/src/rsNcGetAggElement.cpp, with getNcIntVar and timeToAsci of api/lib/rcNcInq.cpp. The calls of the
-- iRODS server and of the netCDF library are parameters.
pub mod Range
pub mod Closed
use irods_netcdf.Base.{
  ℕ, ◌+◌, ◌-◌, ◌%◌, Option, none, some, List, [], ◌∷◌, ◌++◌, ℤ, pos, negsuc, ◌-ℤ◌, ◌⊎◌, inl, inr,
  if◌then◌else◌, ltb, decimal, length, replicate, get_elem?,
}
use irods_netcdf.Status.{
  Result, ok, err, fault, Err, code, code_plus, code_minus, foreign, user_null_input_err,
  netcdf_open_err, netcdf_inq_err, netcdf_dim_mismatch_err, netcdf_get_vars_err,
  netcdf_invalid_data_type,
}
use irods_netcdf.NcType.{NcType, nc_short, nc_ushort}
use irods_netcdf.Inq.{NcGenDimOut, NcGenVarOut, NcInqOut}
use irods_netcdf.Subset.{find_var}
use irods_netcdf.Arch.{has_int_case, find_time_dim}
use irods_netcdf.Agg.{NcAggElement}
use irods_netcdf.Close.{L1Desc, Table, Host, no_host, local_host, remote_host}

-- struct tm, as far as it is printed; the year counts from 1900 and the month from 0.
pub record Tm : Type 0 where
  pub tm_year : ℕ
  pub tm_mon : ℕ
  pub tm_mday : ℕ
  pub tm_hour : ℕ
  pub tm_min : ℕ
  pub tm_sec : ℕ

-- snprintf ("%04d") and ("%02d")
unfoldable pub zero_padded : ℕ → ℕ → List ℕ
zero_padded width n = replicate (width - length (decimal n)) b'0' ++ decimal n

-- timeToAsci on what localtime gives.
unfoldable pub time_to_asci : Option Tm → List ℕ
unfolding zero_padded
time_to_asci none = []
time_to_asci (some t) =
    zero_padded 4 (1900 + t.tm_year)
    ++ (b'-'
        ∷ (zero_padded 2 (t.tm_mon + 1)
            ++ (b'-'
                ∷ (zero_padded 2 t.tm_mday
                    ++ (b'T'
                        ∷ (zero_padded 2 t.tm_hour
                            ++ (b':'
                                ∷ (zero_padded 2 t.tm_min ++ (b':' ∷ zero_padded 2 t.tm_sec)))))))))

-- The conversion to an unsigned int.
unfoldable pub to_uint : ℤ → ℕ
to_uint (pos n) = n % 4294967296
to_uint (negsuc n) = 4294967295 - n % 4294967296

-- What nc_get_vara puts into the variable of getNcIntVar: the bits of an integer, which are read as a short,
-- an int or a rodsLong_t, or a float or a double.
pub data ReadValue (R : Type 0) : Type 0 where
  bits : ℕ → ReadValue R
  real : R → ReadValue R

-- ( unsigned int ) myshort
unfoldable pub uint_of_short : ℕ → ℕ
uint_of_short n = let low = n % 65536 in if (ltb low 32768) then low else 4294901760 + low

-- ( unsigned int ) myint and ( unsigned int ) mylong
unfoldable pub uint_of_bits : NcType → ℕ → ℕ
unfolding uint_of_short
uint_of_bits nc_short n = uint_of_short n
uint_of_bits nc_ushort n = uint_of_short n
uint_of_bits t n = n % 4294967296

-- nc_open and nc_get_vara give a status or a value; nc_get_vara reads the element of a variable at a position.
-- `value_of` is the int of an error, and `uint_of_real` the conversion of a float or a double, which C leaves
-- open out of range.
pub record ElementLib (S R : Type 0) : Type 0 where
  pub nc_open : List ℕ → S → (ℤ ⊎ ℕ) × S
  pub nc_close : ℕ → S → S
  pub nc_inq : ℕ → S → Result NcInqOut × S
  pub nc_get_vara : S → ℕ → ℤ → ℤ → ℤ ⊎ ReadValue R
  pub uint_of_real : R → ℕ
  pub value_of : Err → ℤ
  pub localtime : ℕ → Option Tm

-- The first dimension that is called time.
unfoldable pub time_dim : NcInqOut → Option ℕ → Option NcGenDimOut
time_dim inq none = none
time_dim inq (some i) = get_elem? inq.dim i

-- What is used of dataObjInfo_t.
pub record DataObjInfo : Type 0 where
  pub file_path : List ℕ
  pub obj_path : List ℕ

module _ {S R : Type 0} (lib : ElementLib S R) where
  unfoldable pub int_of : NcType → ℤ ⊎ ReadValue R → ℕ
  unfolding to_uint uint_of_bits
  int_of t (inl status) = to_uint (lib.value_of (code_minus netcdf_get_vars_err status))
  int_of t (inr (bits n)) = uint_of_bits t n
  int_of t (inr (real x)) = lib.uint_of_real x

  -- getNcIntVar: its errors are returned as an unsigned int too.
  unfoldable pub get_nc_int_var : S → ℕ → NcGenVarOut → ℤ → ℕ
  unfolding int_of to_uint
  get_nc_int_var s ncid v inx =
      if has_int_case v.data_type
      then int_of v.data_type (lib.nc_get_vara s ncid v.id inx)
      else to_uint (lib.value_of (code netcdf_invalid_data_type))

  unfoldable pub time_element : S → ℕ → DataObjInfo → NcGenDimOut → NcGenVarOut → NcAggElement
  unfolding get_nc_int_var time_to_asci
  time_element s ncid info d v = record {
    start_time = get_nc_int_var s ncid v (pos 0);
    end_time = get_nc_int_var s ncid v (pos d.array_len -ℤ pos 1);
    astart_time = time_to_asci (lib.localtime (get_nc_int_var s ncid v (pos 0)));
    aend_time = time_to_asci (lib.localtime (get_nc_int_var s ncid v (pos d.array_len -ℤ pos 1)));
    arraylen = d.array_len;
    obj_path = info.obj_path;
  }

  unfoldable pub var_found : (NcGenVarOut → NcAggElement) → Option NcGenVarOut → Result NcAggElement
  var_found element none = err (code netcdf_dim_mismatch_err)
  var_found element (some v) = ok (element v)

  unfoldable pub dim_found :
      (NcGenDimOut → NcGenVarOut → NcAggElement)
      → NcInqOut
      → Option NcGenDimOut
      → Result NcAggElement
  unfolding find_var var_found
  dim_found element inq none = err (code netcdf_dim_mismatch_err)
  dim_found element inq (some d) = var_found (element d) (find_var d.name inq.var)

  -- Behind the inquiry; every return closes the file.
  unfoldable pub inquired : DataObjInfo → ℕ → Result NcInqOut × S → Result NcAggElement × S
  unfolding find_time_dim time_dim dim_found time_element
  inquired info ncid (err e, s) =
      (err (code_plus netcdf_inq_err (lib.value_of e)), lib.nc_close ncid s)
  inquired info ncid (fault, s) = (fault, s)
  inquired info ncid (ok inq, s) = (
    dim_found (time_element s ncid info) inq (time_dim inq (find_time_dim 0 inq.dim)),
    lib.nc_close ncid s,
  )

  unfoldable pub file_opened : DataObjInfo → (ℤ ⊎ ℕ) × S → Result NcAggElement × S
  unfolding inquired
  file_opened info (inl status, s) = (err (code_plus netcdf_open_err status), s)
  file_opened info (inr ncid, s) = inquired info ncid (lib.nc_inq ncid s)

  -- _rsNcGetAggElement
  unfoldable pub agg_element_of_file : Option DataObjInfo → S → Result NcAggElement × S
  unfolding file_opened
  agg_element_of_file none s = (err (code user_null_input_err), s)
  agg_element_of_file (some info) s = file_opened info (lib.nc_open info.file_path s)

-- The calls of the iRODS server for an object: where it is, its descriptor, and the same call of another
-- server. `info_of` is the dataObjInfo of a descriptor; `zone_of` and `data_obj_open` are told the path as it
-- is given, behind resolveLinkedPath.
pub record ElementEnv : Type 0 where
  pub zone_of : List ℕ → Host
  pub host_of : L1Desc → Host
  pub info_of : L1Desc → Option DataObjInfo
  pub data_obj_open : List ℕ → Table → Result ℕ × Table
  pub free_l1desc : ℕ → Table → Table
  pub rc_nc_get_agg_element : ℕ → List ℕ → Result NcAggElement

abbrev pub ElementRun : Type 0 → Type 0
ElementRun S = Result NcAggElement × Table × S

module _ {S R : Type 0} (lib : ElementLib S R) (env : ElementEnv) where
  unfoldable pub freed_after : ℕ → Table → Result NcAggElement × S → ElementRun S
  freed_after inx t (r, s) = (r, env.free_l1desc inx t, s)

  unfoldable pub element_on : Host → List ℕ → ℕ → Table → S → ElementRun S
  unfolding freed_after agg_element_of_file
  element_on (no_host status) path inx t s = (err (foreign status), t, s)
  element_on local_host path inx t s =
      freed_after inx t (agg_element_of_file lib (env.info_of (t inx)) s)
  element_on (remote_host conn) path inx t s =
      (env.rc_nc_get_agg_element conn path, env.free_l1desc inx t, s)

  unfoldable pub desc_opened : List ℕ → Result ℕ × Table → S → ElementRun S
  unfolding element_on
  desc_opened path (ok inx, t) s = element_on (env.host_of (t inx)) path inx t s
  desc_opened path (err e, t) s = (err e, t, s)
  desc_opened path (fault, t) s = (fault, t, s)

  unfoldable pub element_in : Host → List ℕ → Table → S → ElementRun S
  unfolding desc_opened
  element_in (no_host status) path t s = (err (foreign status), t, s)
  element_in local_host path t s = desc_opened path (env.data_obj_open path t) s
  element_in (remote_host conn) path t s = (env.rc_nc_get_agg_element conn path, t, s)

  -- rsNcGetAggElement
  unfoldable pub rs_nc_get_agg_element : List ℕ → Table → S → ElementRun S
  unfolding element_in
  rs_nc_get_agg_element path t s = element_in (env.zone_of path) path t s

-- ===== src/Coll/Request.antt =====
-- The request for a variable of a series, around the loop of Coll: _rsNcGetVarsByTypeForColl of
-- api/src/rsNcGetVarsByType.cpp.
use irods_netcdf.Base.{
  ℕ, ◌+◌, ◌-◌, Option, none, some, List, [], ◌++◌, pos, negsuc, ltb, ◌==◌, if◌then◌else◌, get_elem?,
  length, replicate,
}
use irods_netcdf.Status.{
  Result, ok, err, ◌>>=◌, deref, code, foreign, netcdf_dim_mismatch_err,
  netcdf_agg_ele_file_not_opened,
}
use irods_netcdf.NcType.{NcType, get_data_type_size}
use irods_netcdf.Inq.{NcInqOut}
use irods_netcdf.Vars.{
  DimRange, NcGetVarInp, NcGetVarOut, get_size_for_get_vars, is_negative, int_of_pattern,
}
use irods_netcdf.Coll.{ObjOps, OpenedAggInfo, ==_ℤ, get_time_inx_in_var, Gathered, coll_loop}

module _ {V : Type 0} (ops : ObjOps V) where
  -- start[t], count[t] and stride[t] of the request.
  unfoldable pub time_range : Option ℕ → List DimRange → Result DimRange
  time_range none ds = ok (record { start = pos 0; count = pos 1; stride = pos 0 })
  time_range (some t) ds =
      let found = deref (get_elem? ds t) in
      if ltb t (length ds) then found else err (code netcdf_dim_mismatch_err)

  -- ncInqOut0, inquired at the first read.
  unfoldable pub inquired0 : OpenedAggInfo → Option NcInqOut → Result (NcInqOut × OpenedAggInfo)
  inquired0 o none =
      ops.inq_obj o.obj_ncid0 >>= λ inq. ok (inq, record o { nc_inq_out0 = some inq })
  inquired0 o (some inq) = ok (inq, o)

  -- The buffer came from calloc: what was not read is zero.
  unfoldable pub gathered_out :
      V → NcType → ℕ → Gathered ops → Option (List ℕ) → Option (NcGetVarOut V)
  gathered_out zero_value t len g none = none
  gathered_out zero_value t len g (some pi) = some (record {
    data_type_pi = pi;
    data_type = t;
    len = len;
    buf = g.buf ++ replicate (len - g.cur_len) zero_value;
  })

  -- The files from the first, for the time steps of the request. A request that begins below 0 is in the
  -- range of no file.
  unfoldable pub gather :
      V
      → NcGetVarInp
      → Option ℕ
      → NcInqOut
      → ℕ
      → DimRange
      → OpenedAggInfo
      → Result (Option (NcGetVarOut V) × OpenedAggInfo)
  unfolding coll_loop gathered_out
  gather zero_value inp time_inx inq0 len range o = elim range.start [
    | negsuc n ↦ ok (none, o)
    | pos start ↦ elim range.count [
      | negsuc n ↦ ok (none, o)
      | pos count ↦
          coll_loop ops inp time_inx inq0 range.stride len (start + count - 1) 0 start 0
            (record { cur_len = 0; buf = []; data_type_pi = none }) o o.files
          >>= λ r. ok (gathered_out zero_value inp.data_type len r.0 r.0.data_type_pi, r.1)
    ]
  ]

  -- The length of the output, if it is positive.
  unfoldable pub with_len :
      ℕ
      → OpenedAggInfo
      → Result (Option (NcGetVarOut V) × OpenedAggInfo)
      → Result (Option (NcGetVarOut V) × OpenedAggInfo)
  with_len len o next =
      if (len == 0)
      then ok (none, o)
      else if is_negative len
      then err (foreign (int_of_pattern len))
      else next

  -- _rsNcGetVarsByTypeForColl behind the cast of the plugin data, on the structure that it gives. The result is
  -- the output, if there is one, and the state of the opened collection. A length that is not positive is returned as the status. A count below 1 does not get
  -- past getSizeForGetVars.
  unfoldable pub vars_of_opened :
      V → NcGetVarInp → OpenedAggInfo → Result (Option (NcGetVarOut V) × OpenedAggInfo)
  unfolding inquired0 get_time_inx_in_var time_range with_len gather
  vars_of_opened zero_value inp o =
      let read = inquired0 o o.nc_inq_out0 >>= λ r.
      time_range (get_time_inx_in_var r.0 inp.varid) inp.dims >>= λ range.
      get_size_for_get_vars inp.dims >>= λ size.
      get_data_type_size inp.data_type >>= λ data_type_size.
      with_len size.0 r.1
        (gather zero_value inp (get_time_inx_in_var r.0 inp.varid) r.0 size.0 range r.1) in
      if ==_ℤ o.obj_ncid0 (negsuc 0) then err (code netcdf_agg_ele_file_not_opened) else read

  -- _rsNcGetVarsByTypeForColl, on what any_cast gives of the plugin data: `none` for NULL.
  unfoldable pub rs_nc_get_vars_by_type_for_coll :
      V → NcGetVarInp → Option OpenedAggInfo → Result (Option (NcGetVarOut V) × OpenedAggInfo)
  unfolding vars_of_opened
  rs_nc_get_vars_by_type_for_coll zero_value inp none = err (code netcdf_agg_ele_file_not_opened)
  rs_nc_get_vars_by_type_for_coll zero_value inp (some o) = vars_of_opened zero_value inp o

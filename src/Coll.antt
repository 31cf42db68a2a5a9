-- ===== src/Coll.antt =====
-- Reading a variable of a time series that is spread over the files of a collection:
-- _rsNcGetVarsByTypeForColl of api/src/rsNcGetVarsByType.cpp, with openAggrFile of api/lib/rcNcOpen.cpp
-- and getTimeInxInVar of api/lib/rcNcInq.cpp. The calls on a single file are parameters.
pub mod Rows
pub mod Step
pub mod Gather
pub mod Whole
pub mod Request
use irods_netcdf.Base.{
  ℕ, zero, suc, ◌+◌, ◌-◌, ◌*◌, ◌/◌, ◌%◌, Bool, true, false, ◌&&◌, ◌||◌, not, Option, none, some,
  List, [], ◌∷◌, ◌++◌, ℤ, pos, negsuc, ltb, leb, ◌==◌, if◌then◌else◌, get_elem?, length, replicate,
  leb_ℤ,
}
use irods_netcdf.Status.{
  Result, ok, err, fault, ◌>>=◌, deref, code, foreign, netcdf_dim_mismatch_err, netcdf_def_var_err,
  netcdf_agg_ele_file_not_opened, netcdf_agg_ele_file_no_time_dim, netcdf_vars_data_too_big,
}
use irods_netcdf.NcType.{NcType, get_data_type_size}
use irods_netcdf.Inq.{NcGenDimOut, NcGenVarOut, NcInqOut}
use irods_netcdf.Vars.{
  DimRange, NcGetVarInp, NcGetVarOut, get_size_for_get_vars, is_negative, int_of_pattern,
}
use irods_netcdf.Agg.{NcAggElement}
use irods_netcdf.Arch.{find_time_dim}
use irods_netcdf.Subset.{find_var}

-- openedAggInfo_t: -1 is a file that is not opened.
pub record OpenedAggInfo : Type 0 where
  pub agg_element_inx : ℕ
  pub obj_ncid0 : ℤ
  pub obj_ncid : ℤ
  pub files : List NcAggElement
  pub nc_inq_out0 : Option NcInqOut
  pub nc_inq_out : Option NcInqOut

abbrev pub ==_ℤ : ℤ → ℤ → Bool
==_ℤ a b = leb_ℤ a b && leb_ℤ b a

unfoldable pub find_var_id : ℤ → List NcGenVarOut → Option NcGenVarOut
find_var_id varid [] = none
find_var_id varid (v ∷ vs) =
    let rest = find_var_id varid vs in if ==_ℤ v.id varid then some v else rest

unfoldable pub position : ℕ → ℕ → List ℕ → Option ℕ
position i time_dim_id [] = none
position i time_dim_id (d ∷ ds) =
    let rest = position (i + 1) time_dim_id ds in if (d == time_dim_id) then some i else rest

-- getTimeInxInVar; `none` for its three errors, which the caller takes for a variable without time.
unfoldable pub time_inx_of : Option ℕ → Option NcGenVarOut → Option ℕ
unfolding position
time_inx_of none v = none
time_inx_of (some d) none = none
time_inx_of (some d) (some v) = position 0 d v.dim_id

unfoldable pub get_time_inx_in_var : NcInqOut → ℤ → Option ℕ
unfolding find_time_dim find_var_id time_inx_of
get_time_inx_in_var inq varid = time_inx_of (find_time_dim 0 inq.dim) (find_var_id varid inq.var)

-- start[t] and count[t] set; without a time dimension nothing is.
unfoldable pub set_range : Option ℕ → ℕ → ℕ → List DimRange → List DimRange
set_range none start count ds = ds
set_range (some t) start count [] = []
set_range (some zero) start count (d ∷ ds) =
    record { start = pos start; count = pos count; stride = d.stride } ∷ ds
set_range (some (suc t)) start count (d ∷ ds) = d ∷ set_range (some t) start count ds

-- The position after a file, where the stride is taken into account.
unfoldable pub adjust : ℤ → ℕ → ℕ
adjust (negsuc n) cur = cur
adjust (pos zero) cur = cur
adjust (pos (suc n)) cur = if (cur % suc n == 0) then cur else cur / suc n * (suc n + 1)

-- The calls on single files: _rsNcOpenDataObj of a path, _rsNcInqDataObj and
-- _rsNcGetVarsByTypeForObj, with `none` where it leaves no output.
pub record ObjOps (V : Type 0) : Type 0 where
  pub open_obj : List ℕ → Result ℕ
  pub inq_obj : ℤ → Result NcInqOut
  pub get_obj : ℤ → NcGetVarInp → Option (NcGetVarOut V)

module _ {V : Type 0} (ops : ObjOps V) where
  -- openAggrFile. The status of closing the file that was open before is not looked at.
  unfoldable pub open_aggr_file : ℕ → OpenedAggInfo → Result OpenedAggInfo
  open_aggr_file inx o =
      let opened = deref (get_elem? o.files inx) >>= λ x. ops.open_obj x.obj_path >>= λ ncid.
      (if (inx == 0)
        then ok (record o { obj_ncid0 = pos ncid })
        else ok (record o {
          obj_ncid = pos ncid;
          agg_element_inx = inx;
          nc_inq_out = if ltb 0 o.agg_element_inx then none else o.nc_inq_out;
        })) in
      if ltb 0 inx && inx == o.agg_element_inx then ok o else opened

  -- The file of element i is opened and inquired, unless it is the first or is open already.
  unfoldable pub switch_file : ℕ → OpenedAggInfo → Result OpenedAggInfo
  unfolding open_aggr_file
  switch_file i o =
      let switched = open_aggr_file i o >>= λ o'.
      ops.inq_obj o'.obj_ncid >>= λ inq. ok (record o' { nc_inq_out = some inq }) in
      if (i == 0) || i == o.agg_element_inx then ok o else switched

  -- The variable in the file of element i. The source looks up its name in the inquiry of element 0,
  -- both times.
  unfoldable pub var_of_name : Option NcGenVarOut → Result ℤ
  var_of_name none = err (code netcdf_def_var_err)
  var_of_name (some v) = if ==_ℤ v.id (negsuc 0) then err (code netcdf_def_var_err) else ok v.id

  unfoldable pub varid_in : NcInqOut → Option NcGenVarOut → Result ℤ
  unfolding var_of_name find_var
  varid_in inq0 none = err (code netcdf_def_var_err)
  varid_in inq0 (some v0) = var_of_name (find_var v0.name inq0.var)

  -- ncid and varid of the request for element i.
  unfoldable pub target : ℕ → OpenedAggInfo → NcInqOut → ℤ → Result (ℤ × ℤ)
  unfolding find_var_id varid_in
  target i o inq0 varid =
      let other = varid_in inq0 (find_var_id varid inq0.var) >>= λ id. ok (o.obj_ncid, id) in
      if (i == 0) then ok (o.obj_ncid0, varid) else other

  -- The read of a range of element i. The status of the call is not assigned, so that an error is an
  -- access through a null pointer.
  unfoldable pub read_element :
      NcGetVarInp
      → Option ℕ
      → NcInqOut
      → ℕ
      → ℕ
      → ℕ
      → OpenedAggInfo
      → Result (NcGetVarOut V × OpenedAggInfo)
  unfolding switch_file target set_range
  read_element inp time_inx inq0 i start count o = switch_file i o >>= λ o'.
      target i o' inq0 inp.varid >>= λ t.
      deref (
        ops.get_obj t.0
          (record inp { varid = t.1; dims = set_range time_inx start count inp.dims }))
      >>= λ out. ok (out, o')

  -- curLen, what the buffer holds, and dataType_PI, which is empty before the first read.
  pub record Gathered : Type 0 where
    pub cur_len : ℕ
    pub buf : List V
    pub data_type_pi : Option (List ℕ)

  unfoldable pub add_buf : ℕ → Gathered → NcGetVarOut V → Result Gathered
  add_buf len g out =
      if (out.len == 0)
      then ok g
      else if ltb len (g.cur_len + out.len)
      then err (code netcdf_vars_data_too_big)
      else ok (record {
        cur_len = g.cur_len + out.len;
        buf = g.buf ++ out.buf;
        data_type_pi = some out.data_type_pi;
      })

  -- count[t] for the element, up to its end or to the end of the request.
  unfoldable pub element_count : ℕ → ℕ → ℕ → ℕ
  element_count ele_next time_end0 cur =
      if ltb time_end0 (ele_next - 1) then time_end0 - cur + 1 else ele_next - cur

  -- curPos after the element.
  unfoldable pub next_pos : Option ℕ → ℤ → ℕ → ℕ → ℕ
  unfolding adjust
  next_pos none stride cur count = cur
  next_pos (some t) stride cur count = adjust stride (cur + count)

  -- The loop over the files from element i, which begins at `ele_start`; `stride` is stride[t].
  unfoldable pub coll_loop :
      NcGetVarInp
      → Option ℕ
      → NcInqOut
      → ℤ
      → ℕ
      → ℕ
      → ℕ
      → ℕ
      → ℕ
      → Gathered
      → OpenedAggInfo
      → List NcAggElement
      → Result (Gathered × OpenedAggInfo)
  unfolding read_element add_buf element_count next_pos
  coll_loop inp time_inx inq0 stride len time_end0 i cur ele_start g o [] = ok (g, o)
  coll_loop inp time_inx inq0 stride len time_end0 i cur ele_start g o (x ∷ xs) =
      let ele_next = ele_start + x.arraylen in
      let count = element_count ele_next time_end0 cur in
      let cur' = next_pos time_inx stride cur count in
      let skip =
        if ltb time_end0 cur
        then ok (g, o)
        else coll_loop inp time_inx inq0 stride len time_end0 (i + 1) cur ele_next g o xs in
      let in_range = read_element inp time_inx inq0 i (cur - ele_start) count o >>= λ r.
      add_buf len g r.0 >>= λ g'.
      (if ltb time_end0 cur'
        then ok (g', r.1)
        else coll_loop inp time_inx inq0 stride len time_end0 (i + 1) cur' ele_next g' r.1 xs) in
      if leb ele_start cur && ltb cur ele_next then in_range else skip

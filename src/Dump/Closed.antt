-- ===== src/Dump/Closed.antt =====
-- What dumpNcInqOutToNcFile (api/lib/rcNcInq.cpp) leaves of the file that it made.
use irods_netcdf.Base.{
  ℕ, ◌≡◌, refl, Bool, true, false, Option, none, some, List, [], ◌∷◌, ℤ, get_elem?, subst, sym,
}
use irods_netcdf.Status.{Code, deref}
use irods_netcdf.Inq.{NcGenDimOut, NcGenAttOut, NcGenVarOut, NcInqOut}
use irods_netcdf.Dump.{
  Call, nc_create, nc_put_att, nc_def_dim, nc_def_var, nc_enddef, copy_var, Reply, done, failed,
  returned, close_and_rm, checked, attempt, put_atts, put_atts_if, def_dims, dim_id_array, def_var,
  def_vars, whole_ranges, copy_vars, dump_vars, dump_dims, dump_created, dump_nc_inq_out_to_nc_file,
  nc_format_to_cmode,
}
use irods_netcdf.Dump.Calls.{
  IsWork, AllWork, GoesOn, Finished, and_run-GoesOn, and_run-Finished, NoErr, NoErr-GoesOn,
  bind-NoErr, deref-NoErr,
}

module _ (reply : Call → List Call → Reply) (name : List ℕ) where
  checked-GoesOn :
      (c : Code) (r : Reply) (calls : List Call)
      → AllWork calls
      → GoesOn name (checked reply name c r calls)
  unfolding checked close_and_rm
  checked-GoesOn c (done id) calls h = h
  checked-GoesOn c (failed status) calls h = (calls, refl, h)
  checked-GoesOn c (returned e) calls h = (calls, refl, h)

  pub attempt-GoesOn :
      (c : Code) (call : Call) (calls : List Call)
      → IsWork call
      → AllWork calls
      → GoesOn name (attempt reply name c call calls)
  unfolding attempt
  attempt-GoesOn c call calls w h = checked-GoesOn c (reply call calls) (call ∷ calls) (w, h)

  put_atts-GoesOn :
      (varid : Option ℤ) (atts : List NcGenAttOut) (calls : List Call)
      → AllWork calls
      → GoesOn name (put_atts reply name varid atts calls)
  unfolding put_atts
  put_atts-GoesOn varid [] calls h = h
  put_atts-GoesOn varid (a ∷ atts) calls h =
      and_run-GoesOn name _ _ (attempt-GoesOn _ (nc_put_att varid a) calls tt h)
        (λ _ calls1 h1. put_atts-GoesOn varid atts calls1 h1)

  pub put_atts_if-GoesOn :
      (noattr : Bool) (varid : Option ℤ) (atts : List NcGenAttOut) (calls : List Call)
      → AllWork calls
      → GoesOn name (put_atts_if reply name noattr varid atts calls)
  unfolding put_atts_if
  put_atts_if-GoesOn true varid atts calls h = h
  put_atts_if-GoesOn false varid atts calls h = put_atts-GoesOn varid atts calls h

  def_dims-GoesOn :
      (unlimdimid : ℤ) (dims : List NcGenDimOut) (calls : List Call)
      → AllWork calls
      → GoesOn name (def_dims reply name unlimdimid dims calls)
  unfolding def_dims
  def_dims-GoesOn unlimdimid [] calls h = h
  def_dims-GoesOn unlimdimid (d ∷ dims) calls h =
      and_run-GoesOn name _ _ (attempt-GoesOn _ (nc_def_dim d.name _) calls tt h) (λ id calls1 h1.
        and_run-GoesOn name _ _ (def_dims-GoesOn unlimdimid dims calls1 h1) (λ ids calls2 h2. h2))

  dim_id_array-NoErr : (ids : List ℤ) (is : List ℕ) → NoErr (dim_id_array reply name ids is)
  unfolding dim_id_array
  dim_id_array-NoErr ids [] = tt
  dim_id_array-NoErr ids (i ∷ is) =
      bind-NoErr (deref (get_elem? ids i)) _ (deref-NoErr (get_elem? ids i)) (λ id.
        bind-NoErr (dim_id_array reply name ids is) _ (dim_id_array-NoErr ids is) (λ rest. tt))

  whole_ranges-NoErr :
      (dims : List NcGenDimOut) (is : List ℕ) → NoErr (whole_ranges reply name dims is)
  unfolding whole_ranges
  whole_ranges-NoErr dims [] = tt
  whole_ranges-NoErr dims (i ∷ is) =
      bind-NoErr (deref (get_elem? dims i)) _ (deref-NoErr (get_elem? dims i)) (λ d.
        bind-NoErr (whole_ranges reply name dims is) _ (whole_ranges-NoErr dims is) (λ rest. tt))

  def_var-GoesOn :
      (noattr : Bool) (ids : List ℤ) (v : NcGenVarOut) (calls : List Call)
      → AllWork calls
      → GoesOn name (def_var reply name noattr ids v calls)
  unfolding def_var
  def_var-GoesOn noattr ids v calls h =
      and_run-GoesOn name (dim_id_array reply name ids v.dim_id, calls) _
        (NoErr-GoesOn name (dim_id_array reply name ids v.dim_id) calls
          (dim_id_array-NoErr ids v.dim_id) h)
        (λ array calls1 h1.
          and_run-GoesOn name _ _
            (attempt-GoesOn _ (nc_def_var v.name v.data_type array) calls1 tt h1)
            (λ id calls2 h2.
              and_run-GoesOn name _ _ (put_atts_if-GoesOn noattr (some id) v.att calls2 h2)
                (λ _ calls3 h3. h3)))

  pub def_vars-GoesOn :
      (noattr : Bool) (ids : List ℤ) (vs : List NcGenVarOut) (calls : List Call)
      → AllWork calls
      → GoesOn name (def_vars reply name noattr ids vs calls)
  unfolding def_vars
  def_vars-GoesOn noattr ids [] calls h = h
  def_vars-GoesOn noattr ids (v ∷ vs) calls h =
      and_run-GoesOn name _ _ (def_var-GoesOn noattr ids v calls h) (λ id calls1 h1.
        and_run-GoesOn name _ _ (def_vars-GoesOn noattr ids vs calls1 h1) (λ rest calls2 h2. h2))

  copy_vars-GoesOn :
      (dims : List NcGenDimOut) (vs : List NcGenVarOut) (ids : List ℤ) (calls : List Call)
      → AllWork calls
      → GoesOn name (copy_vars reply name dims vs ids calls)
  unfolding copy_vars
  copy_vars-GoesOn dims [] ids calls h = h
  copy_vars-GoesOn dims (v ∷ vs) [] calls h = tt
  copy_vars-GoesOn dims (v ∷ vs) (id ∷ ids) calls h =
      and_run-GoesOn name (whole_ranges reply name dims v.dim_id, calls) _
        (NoErr-GoesOn name (whole_ranges reply name dims v.dim_id) calls
          (whole_ranges-NoErr dims v.dim_id) h)
        (λ ranges calls1 h1.
          and_run-GoesOn name _ _
            (attempt-GoesOn _ (copy_var v.id v.data_type ranges id) calls1 tt h1)
            (λ _ calls2 h2. copy_vars-GoesOn dims vs ids calls2 h2))

  dump_vars-Finished :
      (noattr : Bool) (dims : List NcGenDimOut) (ids : List ℤ) (vs : List NcGenVarOut)
      (calls : List Call)
      → AllWork calls
      → Finished name (dump_vars reply name noattr dims ids vs calls)
  unfolding dump_vars
  dump_vars-Finished noattr dims ids [] calls h = (calls, refl, h)
  dump_vars-Finished noattr dims ids (v ∷ vs) calls h =
      and_run-Finished name _ _ (def_vars-GoesOn noattr ids (v ∷ vs) calls h) (λ var_ids calls1 h1.
        and_run-Finished name _ _
          (copy_vars-GoesOn dims (v ∷ vs) var_ids (nc_enddef ∷ calls1) (tt, h1))
          (λ _ calls2 h2. (calls2, refl, h2)))

  dump_dims-Finished :
      (noattr : Bool) (inq : NcInqOut) (d : NcGenDimOut) (dims : List NcGenDimOut)
      (calls : List Call)
      → AllWork calls
      → Finished name (dump_dims reply name noattr inq (d ∷ dims) calls)
  unfolding dump_dims
  dump_dims-Finished noattr inq d dims calls h =
      and_run-Finished name _ _ (def_dims-GoesOn inq.unlimdimid (d ∷ dims) calls h)
        (λ ids calls1 h1. dump_vars-Finished noattr (d ∷ dims) ids inq.var calls1 h1)

  dump_created-Finished :
      (noattr : Bool) (inq : NcInqOut) (d : NcGenDimOut) (dims : List NcGenDimOut) (id : ℤ)
      (r : Reply) (calls : List Call)
      → inq.dim ≡ d ∷ dims
      → r ≡ done id
      → AllWork calls
      → Finished name (dump_created reply name noattr inq r calls)
  unfolding dump_created
  dump_created-Finished noattr inq d dims id (failed status) calls has e h = absurd (cc e)
  dump_created-Finished noattr inq d dims id (returned error) calls has e h = absurd (cc e)
  dump_created-Finished noattr inq d dims id (done other) calls has e h =
      and_run-Finished name _ _ (put_atts_if-GoesOn noattr none inq.gatt calls h) (λ _ calls1 h1.
        subst (λ ds. Finished name (dump_dims reply name noattr inq ds calls1)) (sym has)
          (dump_dims-Finished noattr inq d dims calls1 h1))

  -- Where the output file was created and there is a dimension, a dump that succeeds closes the file once,
  -- as its last call, and one that fails closes it once and then removes it, whatever call failed. A dump
  -- that reads an array outside its bounds is left out.
  pub dump_nc_inq_out_to_nc_file-Finished :
      (netcdf4_api noattr : Bool) (inq : NcInqOut) (d : NcGenDimOut) (dims : List NcGenDimOut)
      (id : ℤ)
      → inq.dim ≡ d ∷ dims
      → reply (nc_create name (nc_format_to_cmode netcdf4_api inq.format)) [] ≡ done id
      → Finished name (dump_nc_inq_out_to_nc_file reply name netcdf4_api noattr inq)
  unfolding dump_nc_inq_out_to_nc_file
  dump_nc_inq_out_to_nc_file-Finished netcdf4_api noattr inq d dims id has created =
      dump_created-Finished noattr inq d dims id
        (reply (nc_create name (nc_format_to_cmode netcdf4_api inq.format)) [])
        (nc_create name (nc_format_to_cmode netcdf4_api inq.format) ∷ []) has created (tt, tt)

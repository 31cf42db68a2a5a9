-- ===== src/Dump/PartClosed.antt =====
-- What dumpSubsetToFile (api/lib/rcNcInq.cpp) leaves of the file that it made, and the lengths of its
-- dimensions.
use irods_netcdf.Base.{
  ℕ, zero, suc, ◌+◌, ◌≡◌, refl, Bool, Option, none, some, List, [], ◌∷◌, ℤ, pos, negsuc, ◌-ℤ◌, ◌≤ℤ◌,
  arith, subst, sym, ap, int_laws, Bool-cases, inl, inr,
}
use irods_netcdf.Status.{Result, ok, err, fault, ok-injective}
use irods_netcdf.Inq.{NcGenDimOut, NcGenVarOut, NcInqOut}
use irods_netcdf.Vars.{DimRange, NcGetVarInp}
use irods_netcdf.Subset.{NcSubset, find_subset, get_single_nc_var_data, dim_range, out_of_range}
use irods_netcdf.Subset.Bounds.{in_range}
use irods_netcdf.Dump.{
  Call, nc_create, nc_def_dim, nc_enddef, nc_put_vars, Reply, done, failed, returned, close_and_rm,
  nc_format_to_cmode,
}
use irods_netcdf.Dump.Closed.{attempt-GoesOn, put_atts_if-GoesOn, def_vars-GoesOn}
use irods_netcdf.Dump.Calls.{
  AllWork, GoesOn, Finished, and_run-GoesOn, and_run-Finished, NoErr, NoErr-GoesOn, bind-NoErr,
}
use irods_netcdf.Dump.Part.{
  quotient, subset_len, limited_len, NcVarSubset, screen_vars, def_dim_len, def_subset_dims,
  put_checked, read_checked, put_subset_vars, subset_inq_out, dump_subset_vars, dump_subset_dims,
  dump_subset_created, dump_subset_to_file, all_written,
}

quotient-NoErr : (a b : ℤ) → NoErr (quotient a b)
unfolding quotient
quotient-NoErr (pos a) (pos zero) = tt
quotient-NoErr (negsuc a) (pos zero) = tt
quotient-NoErr (pos a) (pos (suc b)) = tt
quotient-NoErr (pos a) (negsuc b) = tt
quotient-NoErr (negsuc a) (pos (suc b)) = tt
quotient-NoErr (negsuc a) (negsuc b) = tt

subset_len-NoErr : (s : Option NcSubset) (d : NcGenDimOut) → NoErr (subset_len s d)
unfolding subset_len
subset_len-NoErr none d = tt
subset_len-NoErr (some s) d =
    bind-NoErr (quotient (s.end -ℤ s.start) s.stride) _ (quotient-NoErr (s.end -ℤ s.start) s.stride)
      (λ q. tt)

limited_len-NoErr :
    (d : NcGenDimOut) (s : Option NcSubset) (n : Option ℕ) → NoErr (limited_len d s n)
unfolding limited_len
limited_len-NoErr d s none = tt
limited_len-NoErr d s (some n) = bind-NoErr (subset_len s d) _ (subset_len-NoErr s d) (λ len. tt)

module _ (reply : Call → List Call → Reply) (name : List ℕ) where
  def_subset_dims-GoesOn :
      (unlimdimid : ℤ) (subsets : List NcSubset) (dims : List NcGenDimOut) (calls : List Call)
      → AllWork calls
      → GoesOn name (def_subset_dims reply name unlimdimid subsets dims calls)
  unfolding def_subset_dims def_dim_len
  def_subset_dims-GoesOn unlimdimid subsets [] calls h = h
  def_subset_dims-GoesOn unlimdimid subsets (d ∷ dims) calls h =
      and_run-GoesOn name (def_dim_len reply name unlimdimid d (find_subset d.name subsets), calls)
        _
        (NoErr-GoesOn name (def_dim_len reply name unlimdimid d (find_subset d.name subsets)) calls
          (limited_len-NoErr d (find_subset d.name subsets) _) h)
        (λ len calls1 h1.
          and_run-GoesOn name _ _ (attempt-GoesOn reply name _ (nc_def_dim d.name len) calls1 tt h1)
            (λ id calls2 h2.
              and_run-GoesOn name _ _ (def_subset_dims-GoesOn unlimdimid subsets dims calls2 h2)
                (λ ids calls3 h3. h3)))

  put_checked-GoesOn :
      (r : Reply) (calls : List Call) → AllWork calls → GoesOn name (put_checked reply name r calls)
  unfolding put_checked close_and_rm
  put_checked-GoesOn (done id) calls h = h
  put_checked-GoesOn (failed status) calls h = (calls, refl, h)
  put_checked-GoesOn (returned e) calls h = (calls, refl, h)

  module _ {O : Type 0} (get_vars : NcGetVarInp → Result O) where
    read_checked-GoesOn :
        (r : Result (O × List DimRange)) (calls : List Call)
        → AllWork calls
        → GoesOn name (read_checked reply name get_vars r calls)
    unfolding read_checked close_and_rm
    read_checked-GoesOn (ok r) calls h = h
    read_checked-GoesOn (err e) calls h = (calls, refl, h)
    read_checked-GoesOn fault calls h = tt

    put_subset_vars-GoesOn :
        (ncid : ℕ) (inq : NcInqOut) (subsets : List NcSubset) (i : ℕ) (ids : List ℤ)
        (calls : List Call)
        → AllWork calls
        → GoesOn name (put_subset_vars reply name get_vars ncid inq subsets i ids calls)
    unfolding put_subset_vars
    put_subset_vars-GoesOn ncid inq subsets i [] calls h = h
    put_subset_vars-GoesOn ncid inq subsets i (id ∷ ids) calls h =
        and_run-GoesOn name _ _
          (read_checked-GoesOn (get_single_nc_var_data get_vars ncid i inq subsets) calls h)
          (λ ranges calls1 h1.
            and_run-GoesOn name _ _
              (put_checked-GoesOn (reply (nc_put_vars id (all_written reply name ranges)) calls1)
                (nc_put_vars id (all_written reply name ranges) ∷ calls1) (tt, h1))
              (λ _ calls2 h2. put_subset_vars-GoesOn ncid inq subsets (i + 1) ids calls2 h2))

    dump_subset_vars-Finished :
        (ncid : ℕ) (noattr : Bool) (inq : NcInqOut) (want : NcVarSubset) (ids : List ℤ)
        (vs : List NcGenVarOut) (calls : List Call)
        → AllWork calls
        → Finished name (dump_subset_vars reply name get_vars ncid noattr inq want ids vs calls)
    unfolding dump_subset_vars
    dump_subset_vars-Finished ncid noattr inq want ids [] calls h = (calls, refl, h)
    dump_subset_vars-Finished ncid noattr inq want ids (v ∷ vs) calls h =
        let asked = screen_vars want (v ∷ vs) in
        and_run-Finished name _ _ (def_vars-GoesOn reply name noattr ids asked calls h)
          (λ var_ids calls1 h1.
            and_run-Finished name _ _
              (put_subset_vars-GoesOn ncid (subset_inq_out reply name get_vars inq asked)
                want.subsets 0 var_ids (nc_enddef ∷ calls1) (tt, h1))
              (λ _ calls2 h2. (calls2, refl, h2)))

    dump_subset_created-Finished :
        (ncid : ℕ) (noattr : Bool) (inq : NcInqOut) (want : NcVarSubset) (d : NcGenDimOut)
        (dims : List NcGenDimOut) (id : ℤ) (r : Reply) (calls : List Call)
        → inq.dim ≡ d ∷ dims
        → r ≡ done id
        → AllWork calls
        → Finished name (dump_subset_created reply name get_vars ncid noattr inq want r calls)
    unfolding dump_subset_created dump_subset_dims
    dump_subset_created-Finished ncid noattr inq want d dims id (failed status) calls has e h =
        absurd (cc e)
    dump_subset_created-Finished ncid noattr inq want d dims id (returned error) calls has e h =
        absurd (cc e)
    dump_subset_created-Finished ncid noattr inq want d dims id (done other) calls has e h =
        and_run-Finished name _ _ (put_atts_if-GoesOn reply name noattr none inq.gatt calls h)
          (λ _ calls1 h1.
            subst
              (λ ds.
                Finished name (dump_subset_dims reply name get_vars ncid noattr inq want ds calls1))
              (sym has)
              (and_run-Finished name _ _
                (def_subset_dims-GoesOn inq.unlimdimid want.subsets (d ∷ dims) calls1 h1)
                (λ ids calls2 h2.
                  dump_subset_vars-Finished ncid noattr inq want ids inq.var calls2 h2)))

    -- Where the output file was created and there is a dimension, a dump of subsets that succeeds closes
    -- the file once, as its last call, and one that fails closes it once and then removes it, whatever
    -- read or call failed. A dump that reads an array outside its bounds, or divides by a stride of 0,
    -- is left out.
    pub dump_subset_to_file-Finished :
        (netcdf4_api : Bool) (ncid : ℕ) (noattr : Bool) (inq : NcInqOut) (want : NcVarSubset)
        (d : NcGenDimOut) (dims : List NcGenDimOut) (id : ℤ)
        → inq.dim ≡ d ∷ dims
        → reply (nc_create name (nc_format_to_cmode netcdf4_api inq.format)) [] ≡ done id
        → Finished name (dump_subset_to_file reply name get_vars netcdf4_api ncid noattr inq want)
    unfolding dump_subset_to_file
    dump_subset_to_file-Finished netcdf4_api ncid noattr inq want d dims id has created =
        dump_subset_created-Finished ncid noattr inq want d dims id
          (reply (nc_create name (nc_format_to_cmode netcdf4_api inq.format)) [])
          (nc_create name (nc_format_to_cmode netcdf4_api inq.format) ∷ []) has created (tt, tt)

quotient_one : (a : ℤ) → pos 0 ≤ℤ a → quotient a (pos 1) ≡ ok a
unfolding quotient
quotient_one (pos a) h = ap (λ (n : ℕ). ok (pos n)) (omega arith)
quotient_one (negsuc a) h = absurd (omega arith)

-- With a stride of 1 the length that a dimension is defined with is the count that is read and written.
pub subset_len-count :
    (s : NcSubset) (d : NcGenDimOut) (r : DimRange)
    → s.stride ≡ pos 1
    → dim_range (some s) d ≡ ok r
    → subset_len (some s) d ≡ ok r.count
unfolding subset_len dim_range
subset_len-count s d r one e = elim (Bool-cases (out_of_range s d.array_len)) [
  | inl out ↦ cc (rw out at e)
  | inr inside ↦
      let (lt, le) = in_range s d.array_len inside in
      subst (λ (t : DimRange). subset_len (some s) d ≡ ok t.count) (ok-injective (rw inside at e))
        (rw one (rw (quotient_one (s.end -ℤ s.start) (omega int_laws)) refl))
]

-- ===== src/Dump/Part.antt =====
-- Writing a part of a netCDF file: dumpSubsetToFile of api/lib/rcNcInq.cpp, on the state and with the calls
-- of the parent module. The read of a variable is a parameter, and what it read is not part of a call.
use irods_netcdf.Base.{
  to_int, ℕ, zero, suc, ◌+◌, ◌/◌, Bool, false, ◌||◌, Option, none, some, List, [], ◌∷◌, ℤ, pos,
  negsuc, ◌-ℤ◌, ◌+ℤ◌, ◌-◌, ◌==◌, if◌then◌else◌, codes, strcmp_eq, take,
}
use irods_netcdf.Status.{
  Result, ok, err, fault, code, code_plus, ◌>>=◌, netcdf_create_err, netcdf_def_dim_err,
  netcdf_put_vars_err, user_null_input_err,
}
use irods_netcdf.Inq.{NcGenDimOut, NcGenVarOut, NcInqOut}
use irods_netcdf.Vars.{DimRange, NcGetVarInp}
use irods_netcdf.Transfer.{LRange, word}
use irods_netcdf.Subset.{NcSubset, find_subset, get_single_nc_var_data}
use irods_netcdf.Dump.{
  Call, nc_create, nc_def_dim, nc_enddef, nc_put_vars, nc_close, Reply, done, failed, returned, Run,
  and_run, close_and_rm, attempt, put_atts_if, dim_len, def_vars, nc_format_to_cmode,
}

-- The quotient of two ints, cut towards 0; a division by 0 is a fault.
unfoldable pub quotient : ℤ → ℤ → Result ℤ
quotient a (pos zero) = fault
quotient (pos a) (pos (suc b)) = ok (pos (a / suc b))
quotient (pos a) (negsuc b) = ok (pos 0 -ℤ pos (a / suc b))
quotient (negsuc a) (pos (suc b)) = ok (pos 0 -ℤ pos (suc a / suc b))
quotient (negsuc a) (negsuc b) = ok (pos (suc a / suc b))

-- The int arrayLen of a dimension that is not unlimited.
unfoldable pub subset_len : Option NcSubset → NcGenDimOut → Result ℤ
unfolding quotient to_int
subset_len none d = ok (to_int (pos d.array_len))
subset_len (some s) d = quotient (s.end -ℤ s.start) s.stride >>= λ q. ok (q +ℤ pos 1)

-- An int as a size_t.
abbrev pub to_size_t : ℤ → ℕ
to_size_t (pos n) = n
to_size_t (negsuc n) = word - 1 - n

unfoldable pub limited_len : NcGenDimOut → Option NcSubset → Option ℕ → Result (Option ℕ)
unfolding subset_len
limited_len d s none = ok none
limited_len d s (some n) = subset_len s d >>= λ len. ok (some (to_size_t len))

-- ncVarSubset_t: numVar and the slots of varName, and the subsets.
pub record NcVarSubset : Type 0 where
  pub num_var : ℕ
  pub var_name : List (List ℕ)
  pub subsets : List NcSubset

unfoldable pub is_named : List ℕ → List (List ℕ) → Bool
is_named name [] = false
is_named name (n ∷ names) = strcmp_eq n name || is_named name names

-- Slot 0 of varName.
abbrev pub first_slot : List (List ℕ) → List ℕ
first_slot [] = []
first_slot (n ∷ names) = n

-- The slots that the names are compared with: from slot 1 on.
abbrev pub later_slots : ℕ → List (List ℕ) → List (List ℕ)
later_slots n [] = []
later_slots n (x ∷ names) = take n names

-- The variables that are asked for.
unfoldable pub screen_vars : NcVarSubset → List NcGenVarOut → List NcGenVarOut
unfolding is_named
screen_vars want [] = []
screen_vars want (v ∷ vs) =
    let rest = screen_vars want vs in
    if (want.num_var == 0)
      || (strcmp_eq (first_slot want.var_name) (codes "all")
          || is_named v.name (later_slots want.num_var want.var_name))
    then v ∷ rest
    else rest

module _ (reply : Call → List Call → Reply) (out_file_name : List ℕ) where
  -- The length of a dimension of the output file; an unlimited one keeps to be so.
  unfoldable pub def_dim_len : ℤ → NcGenDimOut → Option NcSubset → Result (Option ℕ)
  unfolding dim_len limited_len
  def_dim_len unlimdimid d s = limited_len d s (dim_len reply out_file_name unlimdimid d)

  unfoldable pub def_subset_dims : ℤ → List NcSubset → List NcGenDimOut → List Call → Run (List ℤ)
  unfolding attempt def_dim_len find_subset
  def_subset_dims unlimdimid subsets [] calls = (ok [], calls)
  def_subset_dims unlimdimid subsets (d ∷ dims) calls =
      and_run (def_dim_len unlimdimid d (find_subset d.name subsets), calls)
        (λ len calls1.
          and_run (attempt reply out_file_name netcdf_def_dim_err (nc_def_dim d.name len) calls1)
            (λ id calls2.
              and_run (def_subset_dims unlimdimid subsets dims calls2)
                (λ ids calls3. (ok (id ∷ ids), calls3))))

  -- lstart, lcount and lstride of the write; the stride of the subset is not taken into account.
  abbrev pub written : DimRange → LRange
  written r = record { lstart = 0; lcount = to_size_t r.count; lstride = 1 }

  abbrev pub all_written : List DimRange → List LRange
  all_written [] = []
  all_written (r ∷ rs) = written r ∷ all_written rs

  unfoldable pub put_checked : Reply → List Call → Run (Unit {0})
  unfolding close_and_rm
  put_checked (done id) calls = (ok tt, calls)
  put_checked (failed status) calls =
      (err (code netcdf_put_vars_err), close_and_rm reply out_file_name calls)
  put_checked (returned e) calls =
      (err (code netcdf_put_vars_err), close_and_rm reply out_file_name calls)

  module _ {O : Type 0} (get_vars : NcGetVarInp → Result O) where
    -- A failed read closes and removes the file as well.
    unfoldable pub read_checked : Result (O × List DimRange) → List Call → Run (List DimRange)
    unfolding close_and_rm
    read_checked (ok r) calls = (ok r.1, calls)
    read_checked (err e) calls = (err e, close_and_rm reply out_file_name calls)
    read_checked fault calls = (fault, calls)

    -- The values of the variables, from index i of those that are asked for.
    unfoldable pub put_subset_vars :
        ℕ → NcInqOut → List NcSubset → ℕ → List ℤ → List Call → Run (Unit {0})
    unfolding get_single_nc_var_data read_checked put_checked
    put_subset_vars ncid subset_inq subsets i [] calls = (ok tt, calls)
    put_subset_vars ncid subset_inq subsets i (id ∷ ids) calls =
        and_run (read_checked (get_single_nc_var_data get_vars ncid i subset_inq subsets) calls)
          (λ ranges calls1.
            let put = nc_put_vars id (all_written ranges) in
            and_run (put_checked (reply put calls1) (put ∷ calls1))
              (λ _. put_subset_vars ncid subset_inq subsets (i + 1) ids))

    -- subsetNcInqOut: the dimensions with their full lengths, and the variables that are asked for. The
    -- ids that the output file gives stand beside it, and its unlimdimid is not read from here on.
    abbrev pub subset_inq_out : NcInqOut → List NcGenVarOut → NcInqOut
    subset_inq_out inq vs = record {
      unlimdimid = negsuc 0;
      format = inq.format;
      dim = inq.dim;
      var = vs;
      gatt = [];
    }

    unfoldable pub dump_subset_vars :
        ℕ → Bool → NcInqOut → NcVarSubset → List ℤ → List NcGenVarOut → List Call → Run (Unit {0})
    unfolding screen_vars def_vars put_subset_vars
    dump_subset_vars ncid noattr inq want ids [] calls = (ok tt, nc_close ∷ calls)
    dump_subset_vars ncid noattr inq want ids (v ∷ vs) calls =
        let asked = screen_vars want (v ∷ vs) in
        and_run (def_vars reply out_file_name noattr ids asked calls) (λ var_ids calls1.
          and_run
            (put_subset_vars ncid (subset_inq_out inq asked) want.subsets 0 var_ids
              (nc_enddef ∷ calls1))
            (λ _ calls2. (ok tt, nc_close ∷ calls2)))

    unfoldable pub dump_subset_dims :
        ℕ → Bool → NcInqOut → NcVarSubset → List NcGenDimOut → List Call → Run (Unit {0})
    unfolding def_subset_dims dump_subset_vars
    dump_subset_dims ncid noattr inq want [] calls = (err (code user_null_input_err), calls)
    dump_subset_dims ncid noattr inq want (d ∷ dims) calls =
        and_run (def_subset_dims inq.unlimdimid want.subsets (d ∷ dims) calls)
          (λ ids. dump_subset_vars ncid noattr inq want ids inq.var)

    unfoldable pub dump_subset_created :
        ℕ → Bool → NcInqOut → NcVarSubset → Reply → List Call → Run (Unit {0})
    unfolding put_atts_if dump_subset_dims
    dump_subset_created ncid noattr inq want (failed status) calls =
        (err (code_plus netcdf_create_err status), calls)
    dump_subset_created ncid noattr inq want (returned e) calls = (err e, calls)
    dump_subset_created ncid noattr inq want (done id) calls =
        and_run (put_atts_if reply out_file_name noattr none inq.gatt calls)
          (λ _. dump_subset_dims ncid noattr inq want inq.dim)

    -- dumpSubsetToFile
    unfoldable pub dump_subset_to_file : Bool → ℕ → Bool → NcInqOut → NcVarSubset → Run (Unit {0})
    unfolding nc_format_to_cmode dump_subset_created
    dump_subset_to_file netcdf4_api ncid noattr inq want =
        let create = nc_create out_file_name (nc_format_to_cmode netcdf4_api inq.format) in
        dump_subset_created ncid noattr inq want (reply create []) (create ∷ [])

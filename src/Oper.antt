-- ===== src/Oper.antt =====
-- The command on objects and collections: ncOperDataObjUtil and ncOperCollUtil of api/lib/ncUtil.cpp, on a state of the servers and of what was written. The calls of the client library are
-- parameters.
pub mod Visits
pub mod Command
use irods_netcdf.Base.{
  ℕ, ◌-◌, Bool, true, false, ◌||◌, ◌&&◌, not, Option, none, some, List, [], ◌∷◌, ◌++◌, ℤ, take,
  if◌then◌else◌, codes,
}
use irods_netcdf.Status.{
  Result, ok, err, fault, Err, code, code_plus, code_minus, foreign, cat_no_rows_found,
  user_input_option_err, user_input_path_err, user_option_input_err,
}

abbrev pub Run : Type 0 → Type 0 → Type 0
Run A S = Result A × S

-- What the commands use of rodsArguments_t; `to_file` is `option`, the option -o.
pub record Args : Type 0 where
  pub recursive : Bool
  pub to_file : Bool
  pub header : Bool
  pub dim : Bool
  pub var : Bool
  pub subset : Bool
  pub subset_by_val : Bool
  pub agginfo : Bool
  pub long_option : Bool

-- The calls on an object, which is open as an id of type N, with its inquiry of type I.
pub record ObjCalls (S N I : Type 0) : Type 0 where
  pub rc_nc_open : List ℕ → S → Run N S
  pub rc_nc_inq : N → S → Run I S
  pub resolve_subset_var : N → I → S → Run (Unit {0}) S
  pub pr_nc_header : N → I → S → Run (Unit {0}) S
  pub pr_nc_dim_var : N → I → S → Run (Unit {0}) S
  pub pr_nc_var_data : N → I → S → Run (Unit {0}) S
  pub dump_subset_to_file : N → I → S → Run (Unit {0}) S
  pub dump_nc_inq_out_to_nc_file : N → I → S → Run (Unit {0}) S
  pub rc_nc_close : N → S → Run (Unit {0}) S

unfoldable pub and_then : {A B S : Type 0} → Run A S → (A → S → Run B S) → Run B S
and_then (ok a, s) next = next a s
and_then (err e, s) next = (err e, s)
and_then (fault, s) next = (fault, s)

-- A part that is printed where it is asked for; its status takes the place of the one before it.
unfoldable pub if_asked :
    {S : Type 0} → Bool → (S → Run (Unit {0}) S) → Run (Unit {0}) S → Run (Unit {0}) S
if_asked true part (fault, s) = (fault, s)
if_asked true part (ok u, s) = part s
if_asked true part (err e, s) = part s
if_asked false part r = r

-- The end of ncOperDataObjUtil: an error of the closing gives 0, whatever the status was.
unfoldable pub close_status : {S : Type 0} → Result (Unit {0}) → Run (Unit {0}) S → Run (Unit {0}) S
close_status status (ok u, s) = (status, s)
close_status status (err e, s) = (ok tt, s)
close_status status (fault, s) = (fault, s)

module _ {S N I : Type 0} (calls : ObjCalls S N I) (args : Args) where
  unfoldable pub wants_vars : Bool
  wants_vars = args.var || args.subset || args.subset_by_val

  unfoldable pub print_parts : N → I → S → Run (Unit {0}) S
  unfolding if_asked wants_vars
  print_parts ncid inq s = if_asked wants_vars (calls.pr_nc_var_data ncid inq) (
      if_asked args.dim (calls.pr_nc_dim_var ncid inq)
        (if_asked args.header (calls.pr_nc_header ncid inq) (ok tt, s)))

  unfoldable pub output : N → I → S → Run (Unit {0}) S
  unfolding print_parts wants_vars
  output ncid inq s =
      if args.to_file
      then (if wants_vars
          then calls.dump_subset_to_file ncid inq s
          else calls.dump_nc_inq_out_to_nc_file ncid inq s)
      else print_parts ncid inq s

  unfoldable pub closed_after : N → Run (Unit {0}) S → Run (Unit {0}) S
  unfolding close_status
  closed_after ncid (fault, s) = (fault, s)
  closed_after ncid (ok u, s) = close_status (ok u) (calls.rc_nc_close ncid s)
  closed_after ncid (err e, s) = close_status (err e) (calls.rc_nc_close ncid s)

  unfoldable pub resolved : N → I → S → Run (Unit {0}) S
  resolved ncid inq s =
      if args.subset_by_val then calls.resolve_subset_var ncid inq s else (ok tt, s)

  -- ncOperDataObjUtil
  unfoldable pub nc_oper_data_obj_util : List ℕ → S → Run (Unit {0}) S
  unfolding and_then resolved output closed_after
  nc_oper_data_obj_util path s = and_then (calls.rc_nc_open path s) (λ ncid s1.
      and_then (calls.rc_nc_inq ncid s1) (λ inq s2.
        and_then (resolved ncid inq s2) (λ u s3. closed_after ncid (output ncid inq s3))))

-- How the opening or the reading of a collection ends: CAT_NO_ROWS_FOUND, or another status below 0.
pub data ListEnd : Type 0 where
  no_rows : ListEnd
  list_error : ℤ → ListEnd

unfoldable pub as_err : ListEnd → Err
as_err no_rows = code cat_no_rows_found
as_err (list_error status) = foreign status

-- A collection as rclOpenCollection and rclReadCollection give it: the error of its opening, if there is one;
-- whether it is special and not linked; its entries, with the names of their collection; and how the reading ends.
mutual
  pub data Coll : Type 0 where
    coll : Option ListEnd → Bool → CollEnts → ListEnd → Coll

  pub data CollEnts : Type 0 where
    no_ents : CollEnts
    data_obj : List ℕ → List ℕ → CollEnts → CollEnts
    -- whether collClass is not NO_SPEC_COLL
    sub_coll : Bool → Coll → CollEnts → CollEnts

unfoldable pub is_no_rows : Err → Bool
is_no_rows (code cat_no_rows_found) = true
is_no_rows _ = false

-- savedStatus behind the call on an object, and behind that on a collection.
unfoldable pub save_obj :
    {S : Type 0}
    → Option Err
    → Run (Unit {0}) S
    → (Option Err → S → Run (Option Err) S)
    → Run (Option Err) S
save_obj saved (ok u, s) next = next saved s
save_obj saved (err e, s) next = next (some e) s
save_obj saved (fault, s) next = (fault, s)

unfoldable pub save_coll :
    {S : Type 0}
    → Option Err
    → Run (Unit {0}) S
    → (Option Err → S → Run (Option Err) S)
    → Run (Option Err) S
unfolding is_no_rows
save_coll saved (ok u, s) next = next saved s
save_coll saved (err e, s) next = next (if is_no_rows e then saved else some e) s
save_coll saved (fault, s) next = (fault, s)

unfoldable pub end_status : ListEnd → Result (Unit {0})
end_status no_rows = ok tt
end_status (list_error status) = err (foreign status)

unfoldable pub end_coll : {S : Type 0} → ListEnd → Run (Option Err) S → Run (Unit {0}) S
unfolding end_status
end_coll last (ok (some e), s) = (err e, s)
end_coll last (ok none, s) = (end_status last, s)
end_coll last (fault, s) = (fault, s)
end_coll last (err e, s) = (err e, s)

-- MAX_NAME_LEN is the size of the buffer of a path.
module _ {S : Type 0} (max_name_len : ℕ) (oper : List ℕ → S → Run (Unit {0}) S) where
  unfoldable pub child_path : List ℕ → List ℕ → List ℕ
  child_path coll_name data_name = take (max_name_len - 1) (coll_name ++ codes "/" ++ data_name)

  unfoldable mutual
    unfolding child_path save_obj save_coll end_coll as_err

    -- The loop of ncOperCollUtil.
    pub oper_ents : CollEnts → Option Err → S → Run (Option Err) S
    oper_ents no_ents saved s = (ok saved, s)
    oper_ents (data_obj coll_name data_name es) saved s =
        save_obj saved (oper (child_path coll_name data_name) s)
          (λ saved' s'. oper_ents es saved' s')
    oper_ents (sub_coll true c es) saved s = oper_ents es saved s
    oper_ents (sub_coll false c es) saved s =
        save_coll saved (oper_coll c s) (λ saved' s'. oper_ents es saved' s')

    -- ncOperCollUtil with the option -r.
    pub oper_coll : Coll → S → Run (Unit {0}) S
    oper_coll (coll (some e) mounted es last) s = (err (as_err e), s)
    oper_coll (coll none true es last) s = (ok tt, s)
    oper_coll (coll none false es last) s = end_coll last (oper_ents es none s)

  -- ncOperCollUtil
  unfoldable pub nc_oper_coll_util : Bool → Coll → S → Run (Unit {0}) S
  unfolding oper_coll
  nc_oper_coll_util true c s = oper_coll c s
  nc_oper_coll_util false c s = (err (code user_input_option_err), s)

-- ===== src/Tests/Oper.antt =====
-- The command on a collection with two objects, one of them in a collection of its own; the state is the list of
-- the paths that were visited.
use irods_netcdf.Base.{
  ℕ, ◌≡◌, refl, ◌+◌, ◌-◌, Bool, true, false, none, List, [], ◌∷◌, pos, codes, if◌then◌else◌,
}
use irods_netcdf.Status.{
  ok, err, code, foreign, netcdf_open_err, netcdf_close_err, user_option_input_err,
}
use irods_netcdf.Oper.{
  is_no_rows, Run, Args, ObjCalls, nc_oper_data_obj_util, no_rows, Coll, coll, no_ents, data_obj,
  sub_coll, nc_oper_coll_util,
}
use irods_netcdf.Oper.Command.{init_options}
use irods_netcdf.Oper.Visits.{HasNoRows, call_each, coll_paths, IsListed, nc_oper_coll_util-visits}

-- The first object that is visited fails.
oper : List ℕ → List (List ℕ) → Run (Unit {0}) (List (List ℕ))
oper p [] = (err (code netcdf_open_err), p ∷ [])
oper p (q ∷ qs) = (ok tt, p ∷ q ∷ qs)

oper-HasNoRows : (p : List ℕ) (s : List (List ℕ)) → HasNoRows (oper p s)
unfolding oper HasNoRows is_no_rows
oper-HasNoRows p [] = refl
oper-HasNoRows p (q ∷ qs) = tt

abbrev inner : Coll
inner = coll none false (data_obj (codes "/z/c/d") (codes "b") no_ents) no_rows

abbrev tree : Coll
tree =
    coll none false
      (sub_coll false inner (sub_coll true inner (data_obj (codes "/z/c") (codes "a") no_ents)))
      no_rows

tree-IsListed : IsListed 1088 oper tree
unfolding IsListed
tree-IsListed = (refl, ((refl, tt), tt))

nc_oper_coll_util-visits_example :
    nc_oper_coll_util 1088 oper true tree []
    ≡ call_each 1088 oper (coll_paths 1088 oper tree) none []
nc_oper_coll_util-visits_example =
    nc_oper_coll_util-visits 1088 oper oper-HasNoRows tree [] tree-IsListed

both_visited :
    nc_oper_coll_util 1088 oper true tree []
    ≡ (err (code netcdf_open_err), codes "/z/c/a" ∷ codes "/z/c/d/b" ∷ [])
unfolding nc_oper_coll_util oper
both_visited = refl

abbrev options : Bool → Bool → Args
options r o = record {
  recursive = r;
  to_file = o;
  header = false;
  dim = false;
  var = false;
  subset = false;
  subset_by_val = false;
  agginfo = false;
  long_option = false;
}

-- The state counts what is open. The inquiry fails where `inquires` is not set, and so does what is
-- written to the file.
abbrev counting : Bool → Bool → ObjCalls ℕ ℕ ℕ
counting inquires closes = record {
  rc_nc_open = λ p n. (ok 0, n + 1);
  rc_nc_inq = λ i n. (if inquires then ok 0 else err (foreign (pos 1)), n);
  resolve_subset_var = λ i q n. (ok tt, n);
  pr_nc_header = λ i q n. (ok tt, n);
  pr_nc_dim_var = λ i q n. (ok tt, n);
  pr_nc_var_data = λ i q n. (ok tt, n);
  dump_subset_to_file = λ i q n. (ok tt, n);
  dump_nc_inq_out_to_nc_file = λ i q n. (err (code netcdf_open_err), n);
  rc_nc_close = λ i n. (if closes then ok tt else err (code netcdf_close_err), n - 1);
}

left_open :
    (nc_oper_data_obj_util (counting false true) (options false false) (codes "/z/a") 0).1 ≡ 1
unfolding nc_oper_data_obj_util
left_open = refl

dump_error_lost :
    nc_oper_data_obj_util (counting true false) (options false true) (codes "/z/a") 0 ≡ (ok tt, 0)
unfolding nc_oper_data_obj_util
dump_error_lost = refl

refused : init_options false (options true true) ≡ err (code user_option_input_err)
unfolding init_options
refused = refl

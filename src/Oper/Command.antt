-- ===== src/Oper/Command.antt =====
-- The command on all its paths: ncUtil, and the options of initCondForNcOper (api/lib/ncUtil.cpp).
use irods_netcdf.Base.{ℕ, Bool, ◌||◌, ◌&&◌, not, Option, none, some, List, [], ◌∷◌, if◌then◌else◌}
use irods_netcdf.Status.{Result, ok, err, Err, code, user_input_path_err, user_option_input_err}
use irods_netcdf.Oper.{Run, Args, no_rows, Coll, save_obj, end_coll}

-- A path of the command line, as getRodsObjType finds it.
pub data Source : Type 0 where
  not_exist other_obj : Source
  data_obj_path : List ℕ → Source
  coll_path : List ℕ → Coll → Source

-- The calls of ncUtil on a path.
pub record PathCalls (S : Type 0) : Type 0 where
  pub oper_obj : List ℕ → S → Run (Unit {0}) S
  pub oper_tree : Coll → S → Run (Unit {0}) S
  pub cat_agg_info : List ℕ → S → Run (Unit {0}) S
  pub set_agg_info : List ℕ → S → Run (Unit {0}) S

module _ {S : Type 0} (calls : PathCalls S) (args : Args) where
  unfoldable pub on_coll : List ℕ → Coll → S → Run (Unit {0}) S
  on_coll path c s =
      if args.agginfo
      then (if args.long_option then calls.cat_agg_info path s else calls.set_agg_info path s)
      else (if args.recursive then calls.oper_tree c s else calls.oper_obj path s)

  -- The loop of ncUtil: an object that is given with --agginfo is passed over without an error.
  unfoldable pub nc_util_loop : List Source → Option Err → S → Run (Option Err) S
  unfolding save_obj on_coll
  nc_util_loop [] saved s = (ok saved, s)
  nc_util_loop (not_exist ∷ ps) saved s = nc_util_loop ps (some (code user_input_path_err)) s
  nc_util_loop (other_obj ∷ ps) saved s = (err (code user_input_path_err), s)
  nc_util_loop (data_obj_path p ∷ ps) saved s =
      let passed = nc_util_loop ps saved s in
      if args.agginfo
      then passed
      else save_obj saved (calls.oper_obj p s) (λ saved' s'. nc_util_loop ps saved' s')
  nc_util_loop (coll_path p c ∷ ps) saved s =
      save_obj saved (on_coll p c s) (λ saved' s'. nc_util_loop ps saved' s')

  unfoldable pub nc_util : List Source → S → Run (Unit {0}) S
  unfolding nc_util_loop end_coll
  nc_util ps s = end_coll no_rows (nc_util_loop ps none s)

-- initCondForNcOper on the options: none of them asks for the header, and --agginfo without a write lists
-- the description. An error is not looked at by ncUtil.
unfoldable pub init_options : Bool → Args → Result Args
init_options write_flag args =
    if args.to_file && args.recursive
    then err (code user_option_input_err)
    else ok (record args {
      header =
          args.header
          || not (args.dim || args.var || args.to_file || args.subset || args.subset_by_val);
      long_option = args.long_option || (args.agginfo && not write_flag);
    })

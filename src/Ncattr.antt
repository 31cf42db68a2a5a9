-- ===== src/Ncattr.antt =====
-- The command on the attributes of objects in the catalogue: ncattrUtil with the utilities that register and
-- remove attributes (api/lib/ncattrUtil.cpp). The state is what was written and the state of the servers. The
-- calls of the client library, and listAttrDataObjUtil, which prints the answer of a query, are parameters.
pub mod Query
pub mod Pages
pub mod Names
pub mod Statuses
use irods_netcdf.Base.{
  ℕ, zero, suc, ◌-◌, Bool, true, false, ◌||◌, ◌&&◌, Option, none, some, List, [], ◌∷◌, take, codes,
  if◌then◌else◌,
}
use irods_netcdf.Status.{
  Result, ok, err, fault, Err, code, user_null_input_err, user_input_path_err,
  cat_success_but_with_no_info,
}
use irods_netcdf.Oper.{Run, and_then, no_rows, Coll, save_obj, end_coll, nc_oper_coll_util}
use irods_netcdf.Oper.Command.{Source, not_exist, other_obj, data_obj_path, coll_path}

-- What the command uses of rodsArguments_t.
pub record AttrArgs : Type 0 where
  pub recursive : Bool
  pub admin : Bool
  pub reg : Bool
  pub remove : Bool
  pub query : Bool
  pub attr : Bool
  pub attr_str : Option (List ℕ)
  pub query_str : Option (List ℕ)

-- ncRegGlobalAttrInp_t: the names are `none` for a null pointer; the keywords ADMIN_KW and TRANSLATED_PATH_KW.
pub record RegInp : Type 0 where
  pub obj_path : List ℕ
  pub attr_name_array : Option (List (List ℕ))
  pub admin_kw : Bool
  pub translated_path_kw : Bool

-- getNextEleInStr gives an element and the text behind it, or none; it is called up to MAX_NAME_LEN times.
unfoldable pub names_loop : (List ℕ → Option (List ℕ × List ℕ)) → ℕ → List ℕ → List (List ℕ)
names_loop next_ele zero text = []
names_loop next_ele (suc left) text = elim (next_ele text) [
  | none ↦ []
  | some (e, rest) ↦ e ∷ names_loop next_ele left rest
]

unfoldable pub names_of :
    (List ℕ → Option (List ℕ × List ℕ)) → ℕ → Bool → Option (List ℕ) → Option (List (List ℕ))
unfolding names_loop
names_of next_ele max_name_len asked none = none
names_of next_ele max_name_len true (some text) = some (names_loop next_ele max_name_len text)
names_of next_ele max_name_len false (some text) = none

-- initCondForNcattr
unfoldable pub init_cond_for_ncattr :
    (List ℕ → Option (List ℕ × List ℕ)) → ℕ → Option AttrArgs → RegInp
unfolding names_of
init_cond_for_ncattr next_ele max_name_len none = record {
  obj_path = [];
  attr_name_array = none;
  admin_kw = false;
  translated_path_kw = false;
}
init_cond_for_ncattr next_ele max_name_len (some args) = record {
  obj_path = [];
  attr_name_array =
      names_of next_ele max_name_len ((args.reg || args.remove) && args.attr) args.attr_str;
  admin_kw = args.admin;
  translated_path_kw = false;
}

-- The calls on an object: rcNcRegGlobalAttr; rcModAVUMetadata for the operation "rmw", with the object and a name,
-- which "%" leaves open; listAttrDataObjUtil; and queryAUVForDataObj (Ncattr.Query), for the string of --query.
pub record AttrCalls (S : Type 0) : Type 0 where
  pub max_name_len : ℕ
  pub next_ele : List ℕ → Option (List ℕ × List ℕ)
  pub rc_nc_reg_global_attr : RegInp → S → Run (Unit {0}) S
  pub remove_avu : List ℕ → List ℕ → S → Run (Unit {0}) S
  pub list_obj : Option (List ℕ) → S → Run (Unit {0}) S
  pub query_coll : List ℕ → S → Run (Unit {0}) S

-- An object that has no such attribute is no error.
unfoldable pub no_info : {S : Type 0} → Run (Unit {0}) S → Run (Unit {0}) S
no_info (err (code cat_success_but_with_no_info), s) = (ok tt, s)
no_info r = r

module _ {S : Type 0} (calls : AttrCalls S) (args : AttrArgs) where
  -- regAttrDataObjUtil
  unfoldable pub reg_attr_data_obj_util : RegInp → Option (List ℕ) → S → Run (Unit {0}) S
  reg_attr_data_obj_util inp none s = (err (code user_null_input_err), s)
  reg_attr_data_obj_util inp (some path) s =
      calls.rc_nc_reg_global_attr (record inp { obj_path = take (calls.max_name_len - 1) path }) s

  unfoldable pub rm_names : List ℕ → List (List ℕ) → S → Run (Unit {0}) S
  unfolding and_then no_info
  rm_names path [] s = (ok tt, s)
  rm_names path (name ∷ names) s =
      and_then (no_info (calls.remove_avu path name s)) (λ u. rm_names path names)

  unfoldable pub rm_given : List ℕ → Option (List (List ℕ)) → S → Run (Unit {0}) S
  unfolding rm_names no_info
  rm_given path (some (name ∷ names)) s = rm_names path (name ∷ names) s
  rm_given path (some []) s = no_info (calls.remove_avu path (codes "%") s)
  rm_given path none s = no_info (calls.remove_avu path (codes "%") s)

  -- rmAttrDataObjUtil
  unfoldable pub rm_attr_data_obj_util : RegInp → Option (List ℕ) → S → Run (Unit {0}) S
  unfolding rm_given
  rm_attr_data_obj_util inp none s = (err (code user_null_input_err), s)
  rm_attr_data_obj_util inp (some path) s = rm_given path inp.attr_name_array s

  -- regAttrCollUtil, rmAttrCollUtil and listAttrCollUtil go through a collection as ncOperCollUtil does.
  unfoldable pub reg_attr_coll_util : RegInp → Coll → S → Run (Unit {0}) S
  unfolding nc_oper_coll_util reg_attr_data_obj_util
  reg_attr_coll_util inp =
      nc_oper_coll_util calls.max_name_len (λ path. reg_attr_data_obj_util inp (some path))
        args.recursive

  unfoldable pub rm_attr_coll_util : RegInp → Coll → S → Run (Unit {0}) S
  unfolding nc_oper_coll_util rm_attr_data_obj_util
  rm_attr_coll_util inp =
      nc_oper_coll_util calls.max_name_len (λ path. rm_attr_data_obj_util inp (some path))
        args.recursive

  unfoldable pub list_attr_coll_util : Coll → S → Run (Unit {0}) S
  unfolding nc_oper_coll_util
  list_attr_coll_util =
      nc_oper_coll_util calls.max_name_len (λ path. calls.list_obj (some path)) args.recursive

  -- What ncattrUtil does with an object, and with a collection.
  unfoldable pub attr_of_obj : RegInp → List ℕ → S → Run (Unit {0}) S
  unfolding reg_attr_data_obj_util rm_attr_data_obj_util
  attr_of_obj inp path s =
      if args.reg
      then reg_attr_data_obj_util inp (some path) s
      else if args.remove
      then rm_attr_data_obj_util inp (some path) s
      else if args.query
      then (err (code user_input_path_err), s)
      else calls.list_obj (some path) s

  unfoldable pub attr_of_coll : RegInp → List ℕ → Coll → S → Run (Unit {0}) S
  unfolding reg_attr_coll_util rm_attr_coll_util list_attr_coll_util
  attr_of_coll inp path c s =
      if args.reg
      then reg_attr_coll_util inp c s
      else if args.remove
      then rm_attr_coll_util inp c s
      else if args.query
      then calls.query_coll path s
      else list_attr_coll_util c s

  unfoldable pub attr_loop : RegInp → List Source → Option Err → S → Run (Option Err) S
  unfolding attr_of_obj attr_of_coll save_obj
  attr_loop inp [] saved s = (ok saved, s)
  attr_loop inp (not_exist ∷ ps) saved s = attr_loop inp ps (some (code user_input_path_err)) s
  attr_loop inp (other_obj ∷ ps) saved s = (err (code user_input_path_err), s)
  attr_loop inp (data_obj_path p ∷ ps) saved s =
      save_obj saved (attr_of_obj (record inp { translated_path_kw = false }) p s)
        (λ saved' s'. attr_loop inp ps saved' s')
  attr_loop inp (coll_path p c ∷ ps) saved s =
      save_obj saved (attr_of_coll (record inp { translated_path_kw = true }) p c s)
        (λ saved' s'. attr_loop inp ps saved' s')

  -- ncattrUtil: a status below 0 is saved, so that the test for CAT_NO_ROWS_FOUND at the end is never met.
  unfoldable pub nc_attr_util : List Source → S → Run (Unit {0}) S
  unfolding attr_loop init_cond_for_ncattr end_coll
  nc_attr_util ps s =
      end_coll no_rows
        (attr_loop (init_cond_for_ncattr calls.next_ele calls.max_name_len (some args)) ps none s)

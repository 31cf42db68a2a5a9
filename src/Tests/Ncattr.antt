-- ===== src/Tests/Ncattr.antt =====
-- The command on attributes: every character of a text is an element, and the catalogue has two pages.
use irods_netcdf.Base.{
  ℕ, zero, suc, ◌≡◌, ◌↔◌, refl, Bool, true, false, Option, none, some, List, [], ◌∷◌, ◌++◌, ℤ, pos,
  negsuc, codes,
}
use irods_netcdf.Status.{ok, err, code, cat_no_rows_found, cat_success_but_with_no_info}
use irods_netcdf.Oper.{Run, coll, no_ents, no_rows}
use irods_netcdf.Oper.Command.{coll_path, data_obj_path}
use irods_netcdf.Ncattr.{AttrArgs, AttrCalls, init_cond_for_ncattr, nc_attr_util}
use irods_netcdf.Ncattr.Query.{Page, GenQueryInp}
use irods_netcdf.Ncattr.Pages.{done, more, Row, page_of, pages_text}
use irods_netcdf.Ncattr.Statuses.{AllDone, nc_attr_util-AllDone}
use irods_netcdf.Ncattr.Names.{init_cond_for_ncattr-take}

abbrev next_char : List ℕ → Option (List ℕ × List ℕ)
next_char [] = none
next_char (c ∷ cs) = some (c ∷ [], cs)

abbrev first_row : Row
first_row = (codes "/z/c", codes "a.nc")

abbrev second_row : Row
second_row = (codes "/z/c/d", codes "b.nc")

abbrev pages : GenQueryInp → ℤ → ℕ → Run Page ℕ
pages query (pos zero) n = (ok (page_of (first_row ∷ []) (pos 7)), suc n)
pages query (pos (suc i)) n = (ok (page_of (second_row ∷ []) (pos 0)), suc n)
pages query (negsuc i) n = (err (code cat_no_rows_found), n)

pages_printed :
    pages_text ((first_row ∷ []) ∷ (second_row ∷ []) ∷ [])
    ≡ codes "    /z/c/a.nc\n    /z/c/d/b.nc\n"
unfolding pages_text
pages_printed = refl

abbrev args_for : Bool → Bool → AttrArgs
args_for remove query = record {
  recursive = true;
  admin = false;
  reg = false;
  remove = remove;
  query = query;
  attr = true;
  attr_str = some (codes "xyz");
  query_str = some (codes "a=b");
}

init_cond_for_ncattr-take_example :
    (init_cond_for_ncattr next_char 2 (some (args_for true false))).attr_name_array
    ≡ some (codes "x" ∷ codes "y" ∷ [])
init_cond_for_ncattr-take_example =
    init_cond_for_ncattr-take next_char 2 (args_for true false) (codes "xyz")
      (codes "x" ∷ codes "y" ∷ codes "z" ∷ []) (more refl (more refl (more refl (done refl)))) refl
      refl

-- The first name that is removed is not there.
abbrev removed : List (List ℕ) → List ℕ → Run (Unit {0}) (List (List ℕ))
removed [] name = (err (code cat_success_but_with_no_info), name ∷ [])
removed (n ∷ ns) name = (ok tt, n ∷ (ns ++ name ∷ []))

abbrev calls : AttrCalls (List (List ℕ))
calls = record {
  max_name_len = 1088;
  next_ele = next_char;
  rc_nc_reg_global_attr = λ inp s. (ok tt, s);
  remove_avu = λ path name s. removed s name;
  list_obj = λ path s. (ok tt, s);
  query_coll = λ path s. (err (code cat_no_rows_found), s);
}

nothing_found :
    nc_attr_util calls
      (args_for false true)
      (coll_path (codes "/z/c") (coll none false no_ents no_rows) ∷ [])
      []
    ≡ (err (code cat_no_rows_found), [])
unfolding nc_attr_util
nothing_found = refl

nc_attr_util-AllDone_example :
    (nc_attr_util calls (args_for true false) (data_obj_path (codes "/z/c/a.nc") ∷ []) []
      ≡ (ok tt, codes "x" ∷ codes "y" ∷ codes "z" ∷ []))
    ↔ AllDone calls
        (args_for true false)
        (init_cond_for_ncattr next_char 1088 (some (args_for true false)))
        (data_obj_path (codes "/z/c/a.nc") ∷ [])
        []
        (codes "x" ∷ codes "y" ∷ codes "z" ∷ [])
nc_attr_util-AllDone_example =
    nc_attr_util-AllDone calls (args_for true false) (data_obj_path (codes "/z/c/a.nc") ∷ []) []
      (codes "x" ∷ codes "y" ∷ codes "z" ∷ [])

all_removed :
    nc_attr_util calls (args_for true false) (data_obj_path (codes "/z/c/a.nc") ∷ []) []
    ≡ (ok tt, codes "x" ∷ codes "y" ∷ codes "z" ∷ [])
unfolding nc_attr_util
all_removed = refl

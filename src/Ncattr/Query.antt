-- ===== src/Ncattr/Query.antt =====
-- The queries of api/lib/ncattrUtil.cpp: the condition on the attributes of an object (queryDataObjForAUV), and
-- the objects of a collection that a query string asks for (queryAUVForDataObj).
use irods_netcdf.Base.{
  ℕ, zero, suc, ◌-◌, ◌*◌, Option, none, some, List, [], ◌∷◌, ◌++◌, take, codes, ℤ, pos, ltb_ℤ,
  if◌then◌else◌, get_elem?,
}
use irods_netcdf.Status.{
  Result, ok, err, fault, ◌>>=◌, deref, code, user_null_input_err, user_option_input_err,
  unmatched_key_or_index,
}
use irods_netcdf.Oper.{Run}

pub data Column : Type 0 where
  coll_name data_name attr_name attr_value attr_units : Column

-- genQueryInp_t: the conditions in the order of addInxVal.
pub record GenQueryInp : Type 0 where
  pub selects : List Column
  pub conds : List (Column × List ℕ)
  pub max_rows : ℕ

-- genQueryOut_t of a query for the objects of a collection; a column is `none` where getSqlResultByInx does not
-- find it.
pub record Page : Type 0 where
  pub row_cnt : ℕ
  pub colls : Option (List (List ℕ))
  pub names : Option (List (List ℕ))
  pub continue_inx : ℤ

unfoldable pub quoted : List ℕ → List ℕ
quoted text = codes " = '" ++ text ++ codes "'"

-- snprintf into a buffer of that size.
unfoldable pub fitted : ℕ → List ℕ → List ℕ
fitted size = take (size - 1)

-- What the next element is: `count` of 0, 1 and 2, with the operator that was read.
pub data Slot : Type 0 where
  at_attr at_op : Slot
  at_value : List ℕ → Slot

unfoldable pub next_slot : Slot → List ℕ → Slot
next_slot at_attr e = at_op
next_slot at_op e = at_value e
next_slot (at_value op) e = at_attr

unfoldable pub all_read : Slot → List (Column × List ℕ) → Result (List (Column × List ℕ))
all_read at_attr conds = ok conds
all_read at_op conds = err (code user_option_input_err)
all_read (at_value op) conds = err (code user_option_input_err)

-- The rows of a page, from the row i.
unfoldable pub print_rows : ℕ → ℕ → List (List ℕ) → List (List ℕ) → Result (List ℕ)
print_rows zero i colls names = ok []
print_rows (suc n) i colls names = deref (get_elem? colls i) >>= λ c.
    deref (get_elem? names i) >>= λ d. print_rows n (suc i) colls names >>= λ rows.
    ok (codes "    " ++ c ++ codes "/" ++ d ++ codes "\n" ++ rows)

unfoldable pub page_text : Option (List (List ℕ)) → Option (List (List ℕ)) → ℕ → Result (List ℕ)
unfolding print_rows
page_text none names n = err (code unmatched_key_or_index)
page_text (some colls) none n = err (code unmatched_key_or_index)
page_text (some colls) (some names) n = print_rows n 0 colls names

abbrev pub Console : Type 0 → Type 0
Console S = List ℕ × S

unfoldable pub printed :
    {S : Type 0}
    → Console S
    → Result (List ℕ)
    → (Console S → Run (Unit {0}) (Console S))
    → Run (Unit {0}) (Console S)
printed (out, s) (ok text) next = next (out ++ text, s)
printed (out, s) (err e) next = (err e, (out, s))
printed (out, s) fault next = (fault, (out, s))

unfoldable pub page_read :
    {S : Type 0}
    → (ℤ → Console S → Run (Unit {0}) (Console S))
    → List ℕ
    → Run Page S
    → Run (Unit {0}) (Console S)
unfolding page_text printed
page_read next out (err e, s) = (err e, (out, s))
page_read next out (fault, s) = (fault, (out, s))
page_read next out (ok page, s) =
    printed (out, s) (page_text page.colls page.names page.row_cnt) (next page.continue_inx)

module _ {S : Type 0} (rc_gen_query : GenQueryInp → ℤ → S → Run Page S) where
  -- The loop over the pages, with fuel for the pages: it goes on while continueInx is above 0.
  unfoldable pub page_loop : ℕ → GenQueryInp → ℤ → Console S → Run (Unit {0}) (Console S)
  unfolding page_read
  page_loop zero query inx (out, s) = (fault, (out, s))
  page_loop (suc fuel) query inx (out, s) =
      page_read
        (λ next c.
          let rest = page_loop fuel query next c in if ltb_ℤ (pos 0) next then rest else (ok tt, c))
        out (rc_gen_query query inx s)

-- `next_ele` is getNextEleInStr: an element and the text behind it; `rstrcat` puts a text behind another, with
-- the size of the buffer.
module _ (max_name_len max_sql_rows : ℕ) (next_ele : List ℕ → Option (List ℕ × List ℕ)) where
  -- The other names of --attr, with fuel for the elements.
  unfoldable pub or_names : (List ℕ → List ℕ → List ℕ) → ℕ → List ℕ → List ℕ → Result (List ℕ)
  unfolding fitted quoted
  or_names rstrcat zero text cond = fault
  or_names rstrcat (suc fuel) text cond = elim (next_ele text) [
    | none ↦ ok cond
    | some (e, rest) ↦
        or_names rstrcat fuel rest (rstrcat cond (fitted max_name_len (codes " ||" ++ quoted e)))
  ]

  unfoldable pub name_cond :
      (List ℕ → List ℕ → List ℕ) → ℕ → Option (List ℕ) → Result (List (Column × List ℕ))
  unfolding or_names fitted quoted
  name_cond rstrcat fuel none = ok []
  name_cond rstrcat fuel (some text) = elim (next_ele text) [
    | none ↦ err (code user_option_input_err)
    | some (e, rest) ↦ or_names rstrcat fuel rest (fitted max_name_len (quoted e)) >>= λ cond.
        ok ((attr_name, cond) ∷ [])
  ]

  -- The query of queryDataObjForAUV, for the parts of a path; `names` is attrStr where --attr is given.
  unfoldable pub query_data_obj_for_auv :
      (List ℕ → List ℕ → List ℕ) → ℕ → List ℕ × List ℕ → Option (List ℕ) → Result GenQueryInp
  unfolding name_cond fitted quoted
  query_data_obj_for_auv rstrcat fuel path names = name_cond rstrcat fuel names >>= λ asked.
      ok (record {
        selects = attr_name ∷ attr_value ∷ attr_units ∷ [];
        conds =
            (data_name, fitted max_name_len (quoted path.1))
            ∷ (coll_name, fitted max_name_len (quoted path.0))
            ∷ asked;
        max_rows = 100 * max_sql_rows;
      })

  unfoldable pub new_conds : Slot → List ℕ → List (Column × List ℕ)
  unfolding fitted quoted
  new_conds at_attr e = (attr_name, fitted max_name_len (quoted e)) ∷ []
  new_conds at_op e = []
  new_conds (at_value op) e =
      (attr_value, fitted max_name_len (op ++ codes " '" ++ e ++ codes "'")) ∷ []

  -- The loop over the elements of the query string, with fuel for them.
  unfoldable pub cond_loop :
      ℕ → Slot → List (Column × List ℕ) → List ℕ → Result (List (Column × List ℕ))
  unfolding next_slot new_conds all_read
  cond_loop zero slot conds text = fault
  cond_loop (suc fuel) slot conds text = elim (next_ele text) [
    | none ↦ all_read slot conds
    | some (e, rest) ↦ cond_loop fuel (next_slot slot e) (conds ++ new_conds slot e) rest
  ]

  unfoldable pub coll_query : List ℕ → List (Column × List ℕ) → GenQueryInp
  coll_query coll conds = record {
    selects = coll_name ∷ data_name ∷ [];
    conds = conds;
    max_rows = max_sql_rows;
  }

  unfoldable pub coll_cond : List ℕ → List (Column × List ℕ)
  unfolding fitted quoted
  coll_cond coll =
      (coll_name, fitted max_name_len (quoted coll ++ codes " || like '" ++ coll ++ codes "/%'"))
      ∷ []

  module _ {S : Type 0} (rc_gen_query : GenQueryInp → ℤ → S → Run Page S) where
    unfoldable pub asked_for :
        ℕ → List ℕ → Result (List (Column × List ℕ)) → Console S → Run (Unit {0}) (Console S)
    unfolding page_loop coll_query
    asked_for fuel coll (ok conds) c = page_loop rc_gen_query fuel (coll_query coll conds) (pos 0) c
    asked_for fuel coll (err e) c = (err e, c)
    asked_for fuel coll fault c = (fault, c)

    -- queryAUVForDataObj
    unfoldable pub query_auv_for_data_obj :
        ℕ → Option (List ℕ) → List ℕ → Console S → Run (Unit {0}) (Console S)
    unfolding asked_for cond_loop coll_cond
    query_auv_for_data_obj fuel none coll c = (err (code user_null_input_err), c)
    query_auv_for_data_obj fuel (some text) coll c =
        asked_for fuel coll (cond_loop fuel at_attr (coll_cond coll) text) c

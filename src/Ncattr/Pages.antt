-- ===== src/Ncattr/Pages.antt =====
-- What queryAUVForDataObj (api/lib/ncattrUtil.cpp) asks the catalogue for, and what it prints of the answer.
use irods_netcdf.Base.{
  ℕ, zero, suc, ◌<◌, ◌≡◌, refl, sym, ap, ◌∙◌, true, false, Option, none, some, List, [], ◌∷◌, ◌++◌,
  map, codes, ℤ, pos, ltb_ℤ, arith, length, append_assoc, append-nil,
}
use irods_netcdf.Status.{
  Result, ok, err, ◌>>=◌, Err, code, user_option_input_err, >>=_assoc, >>=_cong,
}
use irods_netcdf.Oper.{Run}
use irods_netcdf.Ncattr.Query.{
  Column, attr_name, attr_value, GenQueryInp, Page, quoted, fitted, at_attr, next_slot, new_conds,
  all_read, cond_loop, coll_cond, Console, asked_for, query_auv_for_data_obj,
}

regrouped {ℓ} :
    {A : Type ℓ} (xs : List A) (x y : A) (ys : List A)
    → (((xs ++ x ∷ []) ++ []) ++ y ∷ []) ++ ys ≡ xs ++ x ∷ y ∷ ys
regrouped xs x y ys = simp (append-nil, append_assoc)

-- The elements that getNextEleInStr takes from a text, one after the other.
pub data TextElements (next_ele : List ℕ → Option (List ℕ × List ℕ))
    : List ℕ → List (List ℕ) → Type 0 where
  done : {text : List ℕ} → next_ele text ≡ none → TextElements next_ele text []
  more :
      {text e rest : List ℕ} {es : List (List ℕ)}
      → next_ele text ≡ some (e, rest)
      → TextElements next_ele rest es
      → TextElements next_ele text (e ∷ es)

-- A row is a collection and a name.
abbrev pub Row : Type 0
Row = List ℕ × List ℕ

abbrev pub page_of : List Row → ℤ → Page
page_of rows next = record {
  row_cnt = length rows;
  colls = some (map (λ r. r.0) rows);
  names = some (map (λ r. r.1) rows);
  continue_inx = next;
}

unfoldable pub rows_text : List Row → List ℕ
rows_text [] = []
rows_text (r ∷ rows) = codes "    " ++ r.0 ++ codes "/" ++ r.1 ++ codes "\n" ++ rows_text rows

-- The catalogue answers with these rows, page after page, and with no more pages behind the last one.
pub data Serves {S : Type 0} (rc_gen_query : GenQueryInp → ℤ → S → Run Page S) (query : GenQueryInp)
    : ℤ → S → List (List Row) → S → Type 0 where
  last :
      {inx next : ℤ} {s s1 : S} {rows : List Row}
      → rc_gen_query query inx s ≡ (ok (page_of rows next), s1)
      → ltb_ℤ (pos 0) next ≡ false
      → Serves rc_gen_query query inx s (rows ∷ []) s1
  continued :
      {inx next : ℤ} {s s1 s2 : S} {rows : List Row} {pages : List (List Row)}
      → rc_gen_query query inx s ≡ (ok (page_of rows next), s1)
      → ltb_ℤ (pos 0) next ≡ true
      → Serves rc_gen_query query next s1 pages s2
      → Serves rc_gen_query query inx s (rows ∷ pages) s2

unfoldable pub pages_text : List (List Row) → List ℕ
unfolding rows_text
pages_text [] = []
pages_text (p ∷ ps) = rows_text p ++ pages_text ps

module _ (max_name_len max_sql_rows : ℕ) (next_ele : List ℕ → Option (List ℕ × List ℕ)) where
  -- The conditions of attributes, operators and values by threes.
  unfoldable pub triple_conds : List (List ℕ) → Result (List (Column × List ℕ))
  unfolding fitted quoted
  triple_conds [] = ok []
  triple_conds (a ∷ []) = err (code user_option_input_err)
  triple_conds (a ∷ op ∷ []) = err (code user_option_input_err)
  triple_conds (a ∷ op ∷ v ∷ es) = triple_conds es >>= λ conds. ok (
      (attr_name, fitted max_name_len (quoted a))
      ∷ (attr_value, fitted max_name_len (op ++ codes " '" ++ v ++ codes "'"))
      ∷ conds)

  cond_loop-triples :
      (fuel : ℕ) (es : List (List ℕ)) (conds : List (Column × List ℕ)) {text : List ℕ}
      → TextElements next_ele text es
      → length es < fuel
      → cond_loop max_name_len max_sql_rows next_ele fuel at_attr conds text
        ≡ (triple_conds es >>= λ asked. ok (conds ++ asked))
  unfolding cond_loop triple_conds all_read next_slot new_conds
  cond_loop-triples zero es conds h f = absurd (omega arith)
  cond_loop-triples (suc fuel) [] conds (done e) f =
      rw (e, cond_loop) (ap ok (sym (append-nil conds)))
  cond_loop-triples (suc zero) (a ∷ es) conds (more e h) f = absurd (omega arith)
  cond_loop-triples (suc (suc fuel)) (a ∷ []) conds (more e (done e1)) f =
      rw (e, e1, cond_loop) refl
  cond_loop-triples (suc (suc zero)) (a ∷ op ∷ es) conds h f = absurd (omega arith)
  cond_loop-triples (suc (suc (suc fuel))) (a ∷ op ∷ []) conds (more e (more e1 (done e2))) f =
      rw (e, e1, e2, cond_loop) refl
  cond_loop-triples (suc (suc (suc fuel))) (a ∷ op ∷ v ∷ es) conds (more e (more e1 (more e2 h)))
        f =
      let x : Column × List ℕ = (attr_name, fitted max_name_len (quoted a)) in
      let y : Column × List ℕ =
        (attr_value, fitted max_name_len (op ++ codes " '" ++ v ++ codes "'")) in
      rw (e, e1, e2, cond_loop)
        (cond_loop-triples fuel es (((conds ++ x ∷ []) ++ []) ++ y ∷ []) h (omega arith)
          ∙ >>=_cong (triple_conds es) (λ asked. ap ok (regrouped conds x y asked))
          ∙ >>=_assoc (triple_conds es) (λ asked. ok (x ∷ y ∷ asked))
              (λ asked. ok (conds ++ asked)))

  module _ {S : Type 0} (rc_gen_query : GenQueryInp → ℤ → S → Run Page S) where
    -- A query string with one or two elements behind the last three is refused, and the catalogue is not asked.
    pub query_auv_for_data_obj-refused :
        (fuel : ℕ) (text coll : List ℕ) (es : List (List ℕ)) (e : Err) (c : Console S)
        → TextElements next_ele text es
        → triple_conds es ≡ err e
        → length es < fuel
        → query_auv_for_data_obj max_name_len max_sql_rows next_ele rc_gen_query fuel
            (some text)
            coll
            c
          ≡ (err e, c)
    unfolding query_auv_for_data_obj asked_for
    query_auv_for_data_obj-refused fuel text coll es e c h threes enough =
        rw
          (
            cond_loop-triples fuel es (coll_cond max_name_len max_sql_rows next_ele coll) h enough,
            threes,
          )
          refl

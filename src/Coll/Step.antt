-- ===== src/Coll/Step.antt =====
-- One turn of the loop of _rsNcGetVarsByTypeForColl (api/src/rsNcGetVarsByType.cpp): a file before the
-- request, a file that holds its end, and a file that it goes past.
use native.Mathlib.Nat.{add-mul, one-le-mul}
use irods_netcdf.Base.{
  ℕ, ◌+◌, ◌-◌, ◌*◌, ◌≤◌, ◌<◌, ◌≡◌, refl, true, false, some, List, ◌∷◌, ◌++◌, pos, arith, ltb, leb,
  if◌then◌else◌, subst, ◌⊎◌, ap, sym, ◌∙◌, length, take, drop, append_assoc, slice-append_within,
  slice-append_over,
}
use irods_netcdf.Status.{ok}
use irods_netcdf.Inq.{NcInqOut}
use irods_netcdf.Vars.{NcGetVarInp, NcGetVarOut}
use irods_netcdf.Agg.{NcAggElement}
use irods_netcdf.Coll.{
  OpenedAggInfo, ObjOps, Gathered, add_buf, element_count, next_pos, adjust, coll_loop,
}
use irods_netcdf.Coll.Rows.{flatten, flatten-append, Serves, all_rows}

module _ {V : Type 0} (ops : ObjOps V) where
  adjust_one : (cur : ℕ) → adjust (pos 1) cur ≡ cur
  unfolding adjust
  adjust_one cur = ground arith

  pub count_cases :
      (ele_next time_end0 cur : ℕ)
      → cur < ele_next
      → cur ≤ time_end0
      → ((element_count ops ele_next time_end0 cur ≡ time_end0 + 1 - cur) × (time_end0 < ele_next))
        ⊎ ((element_count ops ele_next time_end0 cur ≡ ele_next - cur) × (ele_next ≤ time_end0))
  unfolding element_count
  count_cases ele_next time_end0 cur h l = ground arith

  add_buf_ok :
      (len : ℕ) (g : Gathered ops) (out : NcGetVarOut V)
      → 0 < out.len
      → g.cur_len + out.len ≤ len
      → add_buf ops len g out
        ≡ ok (record {
          cur_len = g.cur_len + out.len;
          buf = g.buf ++ out.buf;
          data_type_pi = some out.data_type_pi;
        })
  unfolding add_buf
  add_buf_ok len g out p l = ground arith

-- The rows of the request that are left, gathered behind what the buffer holds.
pub record Gathers {V : Type 0} (ops : ObjOps V) (width left : ℕ) (rows : List (List V))
    (g g' : Gathered ops) : Type 0 where
  pub same_buf : g'.buf ≡ g.buf ++ flatten rows
  pub same_len : g'.cur_len ≡ g.cur_len + left * width
  pub has_pi : (pi : List ℕ) × (g'.data_type_pi ≡ some pi)

module _ {V : Type 0} (ops : ObjOps V) (inp : NcGetVarInp) (t : ℕ) (inq0 : NcInqOut)
    (width len time_end0 : ℕ) (Open : OpenedAggInfo → Type 0) where
  -- What one read leaves.
  pub gathered :
      (k c : ℕ) (rows : List (List V)) (i : ℕ)
      → Serves ops inp t inq0 width Open i rows
      → Gathered ops
      → OpenedAggInfo
      → Gathered ops
  gathered k c rows i e g o = record {
    cur_len = g.cur_len + (e.out k c o).len;
    buf = g.buf ++ (e.out k c o).buf;
    data_type_pi = some (e.out k c o).data_type_pi;
  }

  pub gathered_fits :
      (k c : ℕ) (rows : List (List V)) (i : ℕ) (e : Serves ops inp t inq0 width Open i rows)
      (g : Gathered ops) (o : OpenedAggInfo) (d : ℕ)
      → (e.out k c o).len ≡ c * width
      → g.cur_len + c * width + d * width ≤ len
      → (gathered k c rows i e g o).cur_len + d * width ≤ len
  unfolding gathered
  gathered_fits k c rows i e g o d size l = omega arith

  gathered-Gathers :
      (k c : ℕ) (rows : List (List V)) (i : ℕ) (e : Serves ops inp t inq0 width Open i rows)
      (g : Gathered ops) (o : OpenedAggInfo)
      → k + c ≤ length rows
      → Gathers ops width c (take c (drop k rows)) g (gathered k c rows i e g o)
  unfolding gathered
  gathered-Gathers k c rows i e g o h = record {
    same_buf = ap (◌++◌ g.buf) (e.out_buf k c o);
    same_len = ap (◌+◌ g.cur_len) (e.out_len k c o h);
    has_pi = ((e.out k c o).data_type_pi, refl);
  }

  Gathers-trans :
      (a b : ℕ) (xs ys : List (List V)) (g g1 g2 : Gathered ops)
      → Gathers ops width a xs g g1
      → Gathers ops width b ys g1 g2
      → Gathers ops width (a + b) (xs ++ ys) g g2
  Gathers-trans a b xs ys g g1 g2 p q = record {
    same_buf =
        q.same_buf
        ∙ ap (λ (l : List V). l ++ flatten ys) p.same_buf
        ∙ append_assoc g.buf (flatten xs) (flatten ys)
        ∙ ap (◌++◌ g.buf) (sym (flatten-append xs ys));
    same_len = omega (arith, p.same_len, q.same_len, add-mul b a width);
    has_pi = q.has_pi;
  }

  pub coll_loop_past :
      (i cur ele_start : ℕ) (g : Gathered ops) (o : OpenedAggInfo) (x : NcAggElement)
      (xs : List NcAggElement)
      → cur ≤ time_end0
      → ele_start + x.arraylen ≤ cur
      → coll_loop ops inp (some t) inq0 (pos 1) len time_end0 i cur ele_start g o (x ∷ xs)
        ≡ coll_loop ops inp
            (some t)
            inq0
            (pos 1)
            len
            time_end0
            (i + 1)
            cur
            (ele_start + x.arraylen)
            g
            o
            xs
  unfolding coll_loop
  coll_loop_past i cur ele_start g o x xs b past =
      let in_order : leb ele_start cur ≡ true = ground arith in
      let behind : ltb cur (ele_start + x.arraylen) ≡ false = ground arith in
      let more : ltb time_end0 cur ≡ false = ground arith in rw (in_order, behind, more) refl

  coll_loop_read :
      (i cur ele_start c : ℕ) (g : Gathered ops) (o : OpenedAggInfo) (x : NcAggElement)
      (xs : List NcAggElement) (rows : List (List V)) (e : Serves ops inp t inq0 width Open i rows)
      → Open o
      → c ≡ element_count ops (ele_start + x.arraylen) time_end0 cur
      → ele_start ≤ cur
      → cur < ele_start + x.arraylen
      → 0 < c
      → cur - ele_start + c ≤ length rows
      → 0 < (e.out (cur - ele_start) c o).len
      → g.cur_len + (e.out (cur - ele_start) c o).len ≤ len
      → coll_loop ops inp (some t) inq0 (pos 1) len time_end0 i cur ele_start g o (x ∷ xs) ≡ (
          if ltb time_end0 (cur + c)
          then ok (gathered (cur - ele_start) c rows i e g o, e.after o)
          else coll_loop ops inp
              (some t)
              inq0
              (pos 1)
              len
              time_end0
              (i + 1)
              (cur + c)
              (ele_start + x.arraylen)
              (gathered (cur - ele_start) c rows i e g o)
              (e.after o)
              xs)
  unfolding coll_loop next_pos gathered
  coll_loop_read i cur ele_start c g o x xs rows e is_open q a before some_row fits p l =
      let in_order : leb ele_start cur ≡ true = ground arith in
      let inside : ltb cur (ele_start + x.arraylen) ≡ true = ground arith in
      rw
        (
          in_order,
          inside,
          sym q,
          e.reads (cur - ele_start) c o is_open some_row fits,
          add_buf_ok ops len g (e.out (cur - ele_start) c o) p l,
          adjust_one ops (cur + c),
        )
        refl

  -- The loop from a position that a file from here on holds.
  abbrev pub GatheredFrom :
      ℕ → ℕ → ℕ → Gathered ops → OpenedAggInfo → List NcAggElement → List (List (List V)) → Type 0
  GatheredFrom i cur ele_start g o xs rss =
      (g' : Gathered ops) × (o' : OpenedAggInfo) × (coll_loop ops inp (some t) inq0 (pos 1) len
          time_end0 i cur ele_start g o xs
        ≡ ok (g', o'))
      × Gathers ops width (time_end0 + 1 - cur)
          (take (time_end0 + 1 - cur) (drop (cur - ele_start) (all_rows rss))) g g'

  -- The file that holds the end of the request.
  pub last_read :
      (i cur ele_start : ℕ) (g : Gathered ops) (o : OpenedAggInfo) (x : NcAggElement)
      (xs : List NcAggElement) (r : List (List V)) (rs : List (List (List V)))
      → length r ≡ x.arraylen
      → Serves ops inp t inq0 width Open i r
      → Open o
      → 0 < width
      → ele_start ≤ cur
      → cur ≤ time_end0
      → time_end0 < ele_start + x.arraylen
      → element_count ops (ele_start + x.arraylen) time_end0 cur ≡ time_end0 + 1 - cur
      → g.cur_len + (time_end0 + 1 - cur) * width ≤ len
      → GatheredFrom i cur ele_start g o (x ∷ xs) (r ∷ rs)
  last_read i cur ele_start g o x xs r rs n e is_open w a b last q l =
      let k = cur - ele_start in
      let c = time_end0 + 1 - cur in
      let fits : k + c ≤ length r = omega arith in
      let size : (e.out k c o).len ≡ c * width = e.out_len k c o fits in
      let over : ltb time_end0 (cur + c) ≡ true = ground arith in
      (
        gathered k c r i e g o,
        e.after o,
        coll_loop_read i cur ele_start c g o x xs r e is_open (sym q) a (omega arith) (omega arith)
              fits (omega (arith, size, one-le-mul {a = c} {b = width} (omega arith) w))
              (omega (arith, size, l))
            ∙ rw over refl,
        rw (slice-append_within k c r (all_rows rs) fits) (gathered-Gathers k c r i e g o fits),
      )

  -- A file that the request goes past.
  pub more_read :
      (i cur ele_start : ℕ) (g : Gathered ops) (o : OpenedAggInfo) (x : NcAggElement)
      (xs : List NcAggElement) (r : List (List V)) (rs : List (List (List V)))
      (e : Serves ops inp t inq0 width Open i r) (c : ℕ)
      → length r ≡ x.arraylen
      → Open o
      → 0 < width
      → ele_start ≤ cur
      → cur < ele_start + x.arraylen
      → ele_start + x.arraylen ≤ time_end0
      → c ≡ ele_start + x.arraylen - cur
      → c ≡ element_count ops (ele_start + x.arraylen) time_end0 cur
      → g.cur_len + c * width ≤ len
      → GatheredFrom
          (i + 1)
          (cur + c)
          (ele_start + x.arraylen)
          (gathered (cur - ele_start) c r i e g o)
          (e.after o)
          xs
          rs
      → GatheredFrom i cur ele_start g o (x ∷ xs) (r ∷ rs)
  more_read i cur ele_start g o x xs r rs e c n is_open w a inside more ec q l (g2, o2, eq, gs) =
      let k = cur - ele_start in
      let d = time_end0 + 1 - (cur + c) in
      let fits : k + c ≤ length r = omega arith in
      let size : (e.out k c o).len ≡ c * width = e.out_len k c o fits in
      let going : ltb time_end0 (cur + c) ≡ false = ground arith in
      let left : c + d ≡ time_end0 + 1 - cur = omega arith in
      let count : length r - k ≡ c = omega arith in
      let rest : time_end0 + 1 - cur - c ≡ d = omega arith in
      let from_start : cur + c - (ele_start + x.arraylen) ≡ 0 = omega arith in
      let rows : take (time_end0 + 1 - cur) (drop k (r ++ all_rows rs))
          ≡ take c (drop k r) ++ take d (drop (cur + c - (ele_start + x.arraylen)) (all_rows rs)) =
        slice-append_over k (time_end0 + 1 - cur) r (all_rows rs) (omega arith) (omega arith)
        ∙ rw (count, rest, from_start) refl in
      (
        g2,
        o2,
        coll_loop_read i cur ele_start c g o x xs r e is_open q a inside (omega arith) fits
              (omega (arith, size, one-le-mul {a = c} {b = width} (omega arith) w))
              (omega (arith, size, l))
            ∙ rw going eq,
        subst
            (λ m. Gathers ops width m (take (time_end0 + 1 - cur) (drop k (r ++ all_rows rs))) g g2)
            left
            (rw rows (
              Gathers-trans c d (take c (drop k r))
                (take d (drop (cur + c - (ele_start + x.arraylen)) (all_rows rs))) g
                (gathered k c r i e g o) g2 (gathered-Gathers k c r i e g o fits) gs)),
      )

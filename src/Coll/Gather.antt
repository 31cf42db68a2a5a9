-- ===== src/Coll/Gather.antt =====
-- The loop of _rsNcGetVarsByTypeForColl (api/src/rsNcGetVarsByType.cpp) gathers the time steps of a
-- request from the files that hold them.
use native.Mathlib.Nat.{add-mul}
use irods_netcdf.Base.{
  ℕ, ◌+◌, ◌-◌, ◌*◌, ◌≤◌, ◌<◌, ◌≡◌, refl, List, [], ◌∷◌, ◌++◌, arith, ltb, Bool-cases, ltb→lt, inl,
  inr, ap, sym, ◌∙◌, length, drop, drop-append_past, length-append,
}
use irods_netcdf.Inq.{NcInqOut}
use irods_netcdf.Vars.{NcGetVarInp}
use irods_netcdf.Agg.{NcAggElement}
use irods_netcdf.Coll.{OpenedAggInfo, ObjOps, Gathered}
use irods_netcdf.Coll.Rows.{AllServe, all_rows}
use irods_netcdf.Coll.Step.{
  GatheredFrom, count_cases, gathered, gathered_fits, coll_loop_past, last_read, more_read,
}

module _ {V : Type 0} (ops : ObjOps V) (inp : NcGetVarInp) (t : ℕ) (inq0 : NcInqOut)
    (width len time_end0 : ℕ) (Open : OpenedAggInfo → Type 0) where
  pub coll_loop-Gathers :
      (i cur ele_start : ℕ) (g : Gathered ops) (o : OpenedAggInfo) (xs : List NcAggElement)
      (rss : List (List (List V)))
      → AllServe ops inp t inq0 width Open i xs rss
      → Open o
      → 0 < width
      → ele_start ≤ cur
      → cur ≤ time_end0
      → time_end0 < ele_start + length (all_rows rss)
      → g.cur_len + (time_end0 + 1 - cur) * width ≤ len
      → GatheredFrom ops inp t inq0 width len time_end0 Open i cur ele_start g o xs rss
  coll_loop-Gathers i cur ele_start g o [] [] s is_open w a b h l = absurd (omega arith)
  coll_loop-Gathers i cur ele_start g o [] (r ∷ rs) s is_open w a b h l = absurd s
  coll_loop-Gathers i cur ele_start g o (x ∷ xs) [] s is_open w a b h l = absurd s
  coll_loop-Gathers i cur ele_start g o (x ∷ xs) (r ∷ rs) (n, e, s) is_open w a b h l =
      let total : length (r ++ all_rows rs) ≡ length r + length (all_rows rs) =
        length-append r (all_rows rs) in
      elim (Bool-cases (ltb cur (ele_start + x.arraylen))) [
        | inr past ↦
            let behind : ele_start + x.arraylen ≤ cur = ground arith in
            let (g', o', eq, gs) =
              coll_loop-Gathers (i + 1) cur (ele_start + x.arraylen) g o xs rs s is_open w behind b
                (omega arith) l in
            let same : drop (cur - ele_start) (r ++ all_rows rs)
                ≡ drop (cur - (ele_start + x.arraylen)) (all_rows rs) =
              drop-append_past (cur - ele_start) r (all_rows rs) (omega arith)
              ∙ ap (λ k. drop k (all_rows rs)) (omega arith) in
            (
              g',
              o',
              coll_loop_past ops inp t inq0 width len time_end0 Open i cur ele_start g o x xs b
                    behind
                  ∙ eq,
              rw same gs,
            )
        | inl before ↦
            let inside = ltb→lt cur (ele_start + x.arraylen) before in
            elim (count_cases ops (ele_start + x.arraylen) time_end0 cur inside b) [
              | inl (q, last) ↦
                  last_read ops inp t inq0 width len time_end0 Open i cur ele_start g o x xs r rs n
                    e is_open w a b last q l
              | inr (q, more) ↦
                  let c = ele_start + x.arraylen - cur in
                  let k = cur - ele_start in
                  let d = time_end0 + 1 - (cur + c) in
                  let size : (e.out k c o).len ≡ c * width = e.out_len k c o (omega arith) in
                  let whole : time_end0 + 1 - cur ≡ c + d = omega arith in
                  let sum : (time_end0 + 1 - cur) * width ≡ c * width + d * width =
                    ap (λ m. m * width) whole ∙ add-mul c d width in
                  more_read ops inp t inq0 width len time_end0 Open i cur ele_start g o x xs r rs e
                    c n is_open w a inside more refl (sym q) (omega (arith, sum, l))
                    (coll_loop-Gathers (i + 1) (cur + c) (ele_start + x.arraylen)
                      (gathered ops inp t inq0 width len time_end0 Open k c r i e g o) (e.after o)
                      xs rs s (e.still_open o is_open) w (omega arith) (omega arith) (omega arith)
                      (gathered_fits ops inp t inq0 width len time_end0 Open k c r i e g o d size
                        (omega (arith, sum, l))))
            ]
      ]

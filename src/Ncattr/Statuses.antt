-- ===== src/Ncattr/Statuses.antt =====
-- When the command on attributes (ncattrUtil of api/lib/ncattrUtil.cpp) gives 0.
use irods_netcdf.Base.{◌≡◌, ◌≢◌, ◌↔◌, refl, ap, true, false, Option, none, some, List, [], ◌∷◌}
use irods_netcdf.Status.{ok, err, fault, Err}
use irods_netcdf.Oper.{Run, save_obj, end_coll, no_rows}
use irods_netcdf.Oper.Command.{Source, not_exist, other_obj, data_obj_path, coll_path}
use irods_netcdf.Ncattr.{
  AttrArgs, RegInp, AttrCalls, init_cond_for_ncattr, attr_of_obj, attr_of_coll, attr_loop,
  nc_attr_util,
}

module _ {S : Type 0} where
  -- A run that goes on from a status of 0 was 0 itself, where an error that is saved is never lost.
  save_obj-ok :
      (saved : Option Err) (r : Run (Unit {0}) S) (k : Option Err → S → Run (Option Err) S) {s' : S}
      → ((e : Err) (s : S) → k (some e) s ≢ (ok none, s'))
      → save_obj saved r k ≡ (ok none, s')
      → (s1 : S) × (r ≡ (ok tt, s1)) × (k saved s1 ≡ (ok none, s'))
  unfolding save_obj
  save_obj-ok saved (ok u, s) k kept h = (s, refl, h)
  save_obj-ok saved (err e, s) k kept h = absurd (kept e s h)
  save_obj-ok saved (fault, s) k kept h = cc

  module _ (calls : AttrCalls S) (args : AttrArgs) where
    -- Every path exists, and what is done with it gives 0, one after the other.
    unfoldable pub AllDone : RegInp → List Source → S → S → Type 0
    AllDone inp [] s s' = s ≡ s'
    AllDone inp (not_exist ∷ ps) s s' = ⊥
    AllDone inp (other_obj ∷ ps) s s' = ⊥
    AllDone inp (data_obj_path p ∷ ps) s s' =
        (s1 : S) × (attr_of_obj calls args (record inp { translated_path_kw = false }) p s
          ≡ (ok tt, s1))
        × AllDone inp ps s1 s'
    AllDone inp (coll_path p c ∷ ps) s s' =
        (s1 : S) × (attr_of_coll calls args (record inp { translated_path_kw = true }) p c s
          ≡ (ok tt, s1))
        × AllDone inp ps s1 s'

    attr_loop-some :
        (inp : RegInp) (ps : List Source) (s' : S) (e : Err) (s : S)
        → attr_loop calls args inp ps (some e) s ≢ (ok none, s')
    unfolding attr_loop
    attr_loop-some inp [] s' e s h = cc
    attr_loop-some inp (not_exist ∷ ps) s' e s h = attr_loop-some inp ps s' _ s h
    attr_loop-some inp (other_obj ∷ ps) s' e s h = cc
    attr_loop-some inp (data_obj_path p ∷ ps) s' e s h =
        let (s1, r, rest) =
          save_obj-ok (some e)
            (attr_of_obj calls args (record inp { translated_path_kw = false }) p s)
            (attr_loop calls args inp ps) (attr_loop-some inp ps s') h in
        attr_loop-some inp ps s' e s1 rest
    attr_loop-some inp (coll_path p c ∷ ps) s' e s h =
        let (s1, r, rest) =
          save_obj-ok (some e)
            (attr_of_coll calls args (record inp { translated_path_kw = true }) p c s)
            (attr_loop calls args inp ps) (attr_loop-some inp ps s') h in
        attr_loop-some inp ps s' e s1 rest

    attr_loop-AllDone :
        (inp : RegInp) (ps : List Source) (s s' : S)
        → attr_loop calls args inp ps none s ≡ (ok none, s')
        → AllDone inp ps s s'
    unfolding attr_loop AllDone
    attr_loop-AllDone inp [] s s' h = ap (λ (r : Run (Option Err) S). r.1) h
    attr_loop-AllDone inp (not_exist ∷ ps) s s' h = attr_loop-some inp ps s' _ s h
    attr_loop-AllDone inp (other_obj ∷ ps) s s' h = cc
    attr_loop-AllDone inp (data_obj_path p ∷ ps) s s' h =
        let (s1, r, rest) =
          save_obj-ok none (attr_of_obj calls args (record inp { translated_path_kw = false }) p s)
            (attr_loop calls args inp ps) (attr_loop-some inp ps s') h in
        (s1, r, attr_loop-AllDone inp ps s1 s' rest)
    attr_loop-AllDone inp (coll_path p c ∷ ps) s s' h =
        let (s1, r, rest) =
          save_obj-ok none
            (attr_of_coll calls args (record inp { translated_path_kw = true }) p c s)
            (attr_loop calls args inp ps) (attr_loop-some inp ps s') h in
        (s1, r, attr_loop-AllDone inp ps s1 s' rest)

    attr_loop-none :
        (inp : RegInp) (ps : List Source) (s s' : S)
        → AllDone inp ps s s'
        → attr_loop calls args inp ps none s ≡ (ok none, s')
    unfolding attr_loop AllDone save_obj
    attr_loop-none inp [] s s' h = rw h refl
    attr_loop-none inp (not_exist ∷ ps) s s' h = absurd h
    attr_loop-none inp (other_obj ∷ ps) s s' h = absurd h
    attr_loop-none inp (data_obj_path p ∷ ps) s s' (s1, r, h) = rw r (attr_loop-none inp ps s1 s' h)
    attr_loop-none inp (coll_path p c ∷ ps) s s' (s1, r, h) = rw r (attr_loop-none inp ps s1 s' h)

    end_coll-ok :
        (r : Run (Option Err) S) (s' : S) → end_coll no_rows r ≡ (ok tt, s') → r ≡ (ok none, s')
    unfolding end_coll
    end_coll-ok (ok none, s) s' h =
        ap (λ (t : S). (ok none, t)) (ap (λ (x : Run (Unit {0}) S). x.1) h)
    end_coll-ok (ok (some e), s) s' h = cc
    end_coll-ok (err e, s) s' h = cc
    end_coll-ok (fault, s) s' h = cc

    -- ncattrUtil gives 0 exactly when every path exists and what is done with each, one after the other, gives
    -- 0: no status of a path is lost, and CAT_NO_ROWS_FOUND is an error like the others.
    pub nc_attr_util-AllDone :
        (ps : List Source) (s s' : S)
        → (nc_attr_util calls args ps s ≡ (ok tt, s'))
          ↔ AllDone (init_cond_for_ncattr calls.next_ele calls.max_name_len (some args)) ps s s'
    unfolding nc_attr_util
    nc_attr_util-AllDone ps s s' =
        let inp = init_cond_for_ncattr calls.next_ele calls.max_name_len (some args) in
        (
          λ h.
              attr_loop-AllDone inp ps s s' (end_coll-ok (attr_loop calls args inp ps none s) s' h),
          λ h. ap (λ (r : Run (Option Err) S). end_coll no_rows r) (attr_loop-none inp ps s s' h),
        )

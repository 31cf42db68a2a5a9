-- ===== src/Open/Balanced.antt =====
-- What _rsNcOpenDataObj (api/lib/rcNcOpen.cpp) does to the table of descriptors, and the closing after it.
use irods_netcdf.Base.{
  ℕ, ◌==◌, ◌≡◌, ◌≢◌, ◌∙◌, refl, sym, ap, subst, true, false, none, ℤ, ◌⊎◌, inl, inr, arith,
  Bool-cases,
}
use irods_netcdf.Status.{ok, err, fault, Err, code_plus, foreign, netcdf_open_err}
use irods_netcdf.Close.{
  L1Desc, Table, Host, no_host, local_host, remote_host, update, CloseEnv, nc_close_data_obj,
}
use irods_netcdf.Close.Freed.{Freed, FreesDesc, Located, update-other, nc_close_data_obj-Closes}
use irods_netcdf.Open.{
  NcOpenInp, OpenEnv, opr_type_of, with_l3desc, with_opr, OpenRun, set_opr, opened_with, connected,
  open_on, after_open, open_in, rs_nc_open_data_obj,
}

-- The descriptor was free and is in use, and the others are as before.
pub record Taken (inx : ℕ) (before after : Table) : Type 0 where
  pub was_free : (before inx).inuse ≡ false
  pub in_use : (after inx).inuse ≡ true
  pub others : (j : ℕ) → j ≢ inx → after j ≡ before j

abbrev pub SameUse : Table → Table → Type 0
SameUse before after = (j : ℕ) → (after j).inuse ≡ (before j).inuse

-- A descriptor that is given was taken; an error leaves none behind; and there is no fault.
abbrev pub Balanced : Table → OpenRun → Type 0
Balanced t (ok inx, t1) = Taken inx t t1
Balanced t (err e, t1) = SameUse t t1
Balanced t (fault, t1) = ⊥

update_inuse :
    (inx : ℕ) (f : L1Desc → L1Desc) (t : Table)
    → ((d : L1Desc) → (f d).inuse ≡ d.inuse)
    → (update inx f t inx).inuse ≡ (t inx).inuse
unfolding update
update_inuse inx f t keeps =
    let k = keeps (t inx) in let same : (inx == inx) ≡ true = ground arith in rw same k

Taken-update :
    (inx : ℕ) (f : L1Desc → L1Desc) (t t1 : Table)
    → ((d : L1Desc) → (f d).inuse ≡ d.inuse)
    → Taken inx t t1
    → Taken inx t (update inx f t1)
Taken-update inx f t t1 keeps taken = record {
  was_free = taken.was_free;
  in_use = update_inuse inx f t1 keeps ∙ taken.in_use;
  others = λ j ne. update-other inx f t1 j ne ∙ taken.others j ne;
}

pub Freed-SameUse : (inx : ℕ) (t t1 t2 : Table) → Taken inx t t1 → Freed inx t1 t2 → SameUse t t2
Freed-SameUse inx t t1 t2 taken freed j = elim (Bool-cases (j == inx)) [
  | inl same ↦
      let e : j ≡ inx = ground arith in
      subst (λ (i : ℕ). (t2 i).inuse ≡ (t i).inuse) (sym e) (freed.not_inuse ∙ sym taken.was_free)
  | inr other ↦
      let ne : j ≢ inx = λ e. ground arith in
      ap (λ (d : L1Desc). d.inuse) (freed.others j ne ∙ taken.others j ne)
]

module _ (env : OpenEnv)
    (by_free : (inx : ℕ) (t : Table) → Freed inx t (env.free_l1desc inx t)) where
  opened_with-Balanced :
      (as_err : ℤ → Err) (o : ℤ ⊎ ℤ) (mode inx : ℕ) (t t1 : Table)
      → Taken inx t t1
      → Balanced t (opened_with env as_err o mode inx t1)
  unfolding opened_with set_opr with_l3desc with_opr
  opened_with-Balanced as_err (inl status) mode inx t t1 taken =
      Freed-SameUse inx t t1 (env.free_l1desc inx t1) taken (by_free inx t1)
  opened_with-Balanced as_err (inr ncid) mode inx t t1 taken =
      Taken-update inx (with_opr (opr_type_of mode)) t (update inx (with_l3desc ncid) t1)
        (λ d. refl) (Taken-update inx (with_l3desc ncid) t t1 (λ d. refl) taken)

  module _ (connects : (conn : ℕ) → env.svr_to_svr_connect conn ≡ none) where
    open_on-Balanced :
        (h : Host) (mode inx : ℕ) (t t1 : Table)
        → Located h
        → Taken inx t t1
        → Balanced t (open_on env h mode inx t1)
    unfolding open_on connected
    open_on-Balanced (no_host status) mode inx t t1 located taken = absurd located
    open_on-Balanced local_host mode inx t t1 located taken =
        opened_with-Balanced (code_plus netcdf_open_err) (env.nc_open (t1 inx).file_path mode) mode
          inx t t1 taken
    open_on-Balanced (remote_host conn) mode inx t t1 located taken = rw (connects conn) (
        opened_with-Balanced foreign (env.rc_nc_open conn (t1 inx).file_path mode true) mode inx t
          t1 taken)

    after_open-Balanced :
        (mode : ℕ) (t : Table) (r : OpenRun)
        → ((d : L1Desc) → Located (env.host_of d))
        → Balanced t r
        → Balanced t (after_open env mode r)
    unfolding after_open
    after_open-Balanced mode t (ok inx, t1) located h =
        open_on-Balanced (env.host_of (t1 inx)) mode inx t t1 (located (t1 inx)) h
    after_open-Balanced mode t (err e, t1) located h = h
    after_open-Balanced mode t (fault, t1) located h = h

    -- For an object of this zone, where servers can be found and connected to: _rsNcOpenDataObj gives a
    -- descriptor that it has taken, or gives an error and leaves no descriptor in use, if that is what
    -- opening a data object does.
    pub rs_nc_open_data_obj-Balanced :
        (inp : NcOpenInp) (t : Table)
        → ((d : L1Desc) → Located (env.host_of d))
        → env.zone_of inp.obj_path ≡ local_host
        → Balanced t (env.data_obj_open inp.obj_path inp.no_staging t)
        → Balanced t (rs_nc_open_data_obj env inp t)
    unfolding rs_nc_open_data_obj open_in
    rs_nc_open_data_obj-Balanced inp t located zone opens = rw zone (
        after_open-Balanced inp.mode t (env.data_obj_open inp.obj_path inp.no_staging t) located
          opens)

    -- For an object of this zone, under the same conditions: when the descriptor that _rsNcOpenDataObj
    -- gave is closed by ncCloseDataObj, the same descriptors are in use as before the opening, whatever
    -- errors the closing gives.
    pub nc_close_data_obj-rs_nc_open_data_obj :
        (closing : CloseEnv) (frees : FreesDesc closing) (inp : NcOpenInp) (t t1 : Table) (inx : ℕ)
        → ((d : L1Desc) → Located (env.host_of d))
        → env.zone_of inp.obj_path ≡ local_host
        → Balanced t (env.data_obj_open inp.obj_path inp.no_staging t)
        → rs_nc_open_data_obj env inp t ≡ (ok inx, t1)
        → Located (closing.host_of (t1 inx))
        → SameUse t (nc_close_data_obj closing inx t1).1
    nc_close_data_obj-rs_nc_open_data_obj closing frees inp t t1 inx located zone opens e there =
        let taken =
          subst (λ (r : OpenRun). Balanced t r) e
            (rs_nc_open_data_obj-Balanced inp t located zone opens) in
        let closed = nc_close_data_obj-Closes closing frees inx t1 there in
        Freed-SameUse inx t t1 (nc_close_data_obj closing inx t1).1 taken closed.1

-- ===== src/Close/Freed.antt =====
-- Which descriptors rsNcClose (api/src/rsNcClose.cpp) frees.
use irods_netcdf.Base.{ℕ, ◌≡◌, ◌≢◌, ◌∙◌, false, Option, none, some, ℤ, arith}
use irods_netcdf.Status.{Result, ok, err, fault, Err, code_plus, netcdf_close_err, foreign}
use irods_netcdf.Close.{
  L1Desc, Table, Run, Host, no_host, local_host, remote_host, CloseEnv, update, no_l3desc,
  close_l1desc, closed_with, close_on, nc_close_data_obj,
}

abbrev pub NoFault : Result (Unit {0}) → Type 0
NoFault (ok u) = Unit {0}
NoFault (err e) = Unit {0}
NoFault fault = ⊥

-- The descriptor is free and the others are as before.
pub record Freed (inx : ℕ) (before after : Table) : Type 0 where
  pub not_inuse : (after inx).inuse ≡ false
  pub others : (j : ℕ) → j ≢ inx → after j ≡ before j

-- freeL1desc and rsDataObjClose free the descriptor that they are given, also where the latter
-- gives an error.
pub record FreesDesc (env : CloseEnv) : Type 0 where
  pub by_free : (inx : ℕ) (t : Table) → Freed inx t (env.free_l1desc inx t)
  pub by_close : (inx : ℕ) (t : Table) → Freed inx t (env.data_obj_close inx t).1
  pub close_returns : (inx : ℕ) (t : Table) → NoFault (env.data_obj_close inx t).0

-- The host of the object could be found.
abbrev pub Located : Host → Type 0
Located (no_host status) = ⊥
Located local_host = Unit {0}
Located (remote_host conn) = Unit {0}

pub update-other :
    (inx : ℕ) (f : L1Desc → L1Desc) (t : Table) (j : ℕ) → j ≢ inx → update inx f t j ≡ t j
unfolding update
update-other inx f t j ne = ground arith

module _ (env : CloseEnv) (frees : FreesDesc env) where
  abbrev pub Closes : ℕ → Table → Run → Type 0
  Closes inx t r = NoFault r.0 × Freed inx t r.1

  pub close_l1desc-Closes : (inx : ℕ) (t : Table) → Closes inx t (close_l1desc env inx t)
  unfolding close_l1desc
  close_l1desc-Closes inx t =
      let t1 = update inx no_l3desc t in
      let freed = frees.by_close inx t1 in
      (
        frees.close_returns inx t1,
        record {
          not_inuse = freed.not_inuse;
          others = λ j ne. freed.others j ne ∙ update-other inx no_l3desc t j ne;
        },
      )

  closed_with-Closes :
      (as_err : ℤ → Err) (o : Option ℤ) (inx : ℕ) (t : Table)
      → Closes inx t (closed_with env as_err o inx t)
  unfolding closed_with
  closed_with-Closes as_err none inx t = close_l1desc-Closes inx t
  closed_with-Closes as_err (some status) inx t = (tt, frees.by_free inx t)

  close_on-Closes :
      (h : Host) (inx : ℕ) (t : Table) → Located h → Closes inx t (close_on env h inx t)
  unfolding close_on
  close_on-Closes (no_host status) inx t h = absurd h
  close_on-Closes local_host inx t h =
      closed_with-Closes (code_plus netcdf_close_err) (env.nc_close (t inx).l3desc_inx) inx t
  close_on-Closes (remote_host conn) inx t h =
      closed_with-Closes foreign (env.rc_nc_close conn (t inx).l3desc_inx) inx t

  -- Where the host of the object is found, ncCloseDataObj frees the descriptor and no other, whatever
  -- nc_close, or the other server, answers.
  pub nc_close_data_obj-Closes :
      (inx : ℕ) (t : Table)
      → Located (env.host_of (t inx))
      → Closes inx t (nc_close_data_obj env inx t)
  unfolding nc_close_data_obj
  nc_close_data_obj-Closes inx t h = close_on-Closes (env.host_of (t inx)) inx t h

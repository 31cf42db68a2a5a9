-- ===== src/Close/Object.antt =====
-- Closing with rsNcClose (api/src/rsNcClose.cpp) where the cast of the plugin data gives nothing, as it does for
-- every descriptor that _rsNcOpenDataObj or rsNcOpenGroup has opened.
use irods_netcdf.Base.{
  ℕ, ◌≡◌, ◌≤◌, ◌<◌, true, false, Option, none, some, ℤ, pos, arith, ltb, leb, ◌||◌, Bool-cases, inl,
  inr,
}
use irods_netcdf.Close.{
  Table, CloseEnv, is_coll, is_group, as_run, close_in_zone, close_at, rs_nc_close,
}
use irods_netcdf.Close.Freed.{FreesDesc, Located, Closes, nc_close_data_obj-Closes}

-- The descriptor is in use and passes the checks, and no collection is found in its plugin data.
pub record OpenDesc (env : CloseEnv) (t : Table) (inx : ℕ) : Type 0 where
  pub from_two : 2 ≤ inx
  pub to_num : inx < env.num_l1_desc
  pub in_use : (t inx).inuse ≡ true
  pub no_coll : is_coll (t inx).plugin_data ≡ false
  pub located : Located (env.host_of (t inx))

module _ (env : CloseEnv) (frees : FreesDesc env) (t : Table) (inx : ℕ)
    (desc : OpenDesc env t inx) where
  as_run-Closes : (o : Option ℤ) → Closes env frees inx t (as_run env o (env.free_l1desc inx t))
  unfolding as_run
  as_run-Closes none = (tt, frees.by_free inx t)
  as_run-Closes (some status) = (tt, frees.by_free inx t)

  close_in_zone-Closes :
      (zone : Option (ℕ × ℤ)) → Closes env frees inx t (close_in_zone env zone inx t)
  unfolding close_in_zone
  close_in_zone-Closes (some h) = as_run-Closes (env.rc_nc_close h.0 h.1)
  close_in_zone-Closes none = elim (Bool-cases (is_group (t inx).opr_type)) [
    | inl group ↦ rw group (tt, frees.by_free inx t)
    | inr object ↦ rw (object, desc.no_coll) (nc_close_data_obj-Closes env frees inx t desc.located)
  ]

  inx_in_range : (ltb inx 2 || leb env.num_l1_desc inx) ≡ false
  inx_in_range = let from = desc.from_two in let to = desc.to_num in ground arith

  -- Closing a descriptor of the table that is in use does nothing undefined, and frees this descriptor and no
  -- other, whatever the netCDF library or the other server answers, where the host of its object can be found
  -- and the cast of its plugin data gives no collection, if freeL1desc and rsDataObjClose free the descriptor
  -- that they are given. It is so for an object, for a group and for an object of another zone.
  pub rs_nc_close-Closes : Closes env frees inx t (rs_nc_close env false (pos inx) t)
  unfolding rs_nc_close close_at
  rs_nc_close-Closes = rw (inx_in_range, desc.in_use) (close_in_zone-Closes (t inx).remote_zone)

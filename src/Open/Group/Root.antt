-- ===== src/Open/Group/Root.antt =====
-- What opening a group does to the descriptor of its root.
use irods_netcdf.Base.{
  ℕ, ◌==◌, ◌≡◌, ◌≢◌, refl, sym, ap, ◌∙◌, true, false, ◌||◌, none, List, ℤ, pos, inr, ltb, leb,
  arith,
}
use irods_netcdf.Status.{ok}
use irods_netcdf.Close.{
  L1Desc, Table, local_host, update, nc_open_group, CloseEnv, rs_nc_close, close_in_zone, is_group,
}
use irods_netcdf.Close.Freed.{update-other}
use irods_netcdf.Open.{with_opr}
use irods_netcdf.Open.Group.{GroupEnv, with_group, group_opened, rs_nc_open_group}

update_self : (inx : ℕ) (f : L1Desc → L1Desc) (t : Table) → update inx f t inx ≡ f (t inx)
unfolding update
update_self inx f t = let same : (inx == inx) ≡ true = ground arith in rw same refl

module _ (env : GroupEnv) (root new : ℕ) (path : List ℕ) (ncid : ℤ) (t t1 : Table) where
  -- The table behind the opening.
  abbrev grouped : Table
  grouped = update root (with_opr nc_open_group) (update new (with_group ncid) t1)

  rs_nc_open_group_lem :
      (ltb root 2 || leb env.num_l1_desc root) ≡ false
      → (t root).inuse ≡ true
      → (t root).remote_zone ≡ none
      → env.host_of (t root) ≡ local_host
      → env.nc_inq_grp_full_ncid (t root).l3desc_inx path ≡ inr ncid
      → env.alloc_l1desc t ≡ (ok new, t1)
      → rs_nc_open_group env false (pos root) path t ≡ (ok (pos new), grouped)
  unfolding rs_nc_open_group group_opened
  rs_nc_open_group_lem inside used zone host found alloc =
      rw (inside, used, zone, host, found, alloc) refl

  root_grouped : new ≢ root → t1 root ≡ t root → grouped root ≡ with_opr nc_open_group (t root)
  root_grouped ne kept =
      update_self root (with_opr nc_open_group) (update new (with_group ncid) t1)
      ∙ ap (with_opr nc_open_group)
          (update-other new (with_group ncid) t1 root (λ e. ne (sym e)) ∙ kept)

close_group :
    (closing : CloseEnv) (root : ℕ) (d : L1Desc) (t : Table)
    → t root ≡ with_opr nc_open_group d
    → (ltb root 2 || leb closing.num_l1_desc root) ≡ false
    → d.inuse ≡ true
    → d.remote_zone ≡ none
    → rs_nc_close closing false (pos root) t ≡ (ok tt, closing.free_l1desc root t)
unfolding rs_nc_close with_opr is_group
close_group closing root d t at inside used zone =
    rw (inside, at, used, zone) (rw (close_in_zone, at) refl)

module _ (env : GroupEnv) (closing : CloseEnv) (root new : ℕ) (path : List ℕ) (ncid : ℤ)
    (t t1 : Table) where
  -- A group that is found in an open file of this zone and server, and for which another descriptor is
  -- allocated, is opened as that descriptor, which keeps the kind of operation that the allocation gave it. The
  -- descriptor of the root is marked as a group in its place: closing the root then succeeds without a call
  -- of nc_close, and only frees the descriptor.
  pub rs_nc_open_group-rs_nc_close :
      (ltb root 2 || leb env.num_l1_desc root) ≡ false
      → closing.num_l1_desc ≡ env.num_l1_desc
      → (t root).inuse ≡ true
      → (t root).remote_zone ≡ none
      → env.host_of (t root) ≡ local_host
      → env.nc_inq_grp_full_ncid (t root).l3desc_inx path ≡ inr ncid
      → env.alloc_l1desc t ≡ (ok new, t1)
      → new ≢ root
      → t1 root ≡ t root
      → (t' : Table) × (rs_nc_open_group env false (pos root) path t ≡ (ok (pos new), t'))
        × ((t' new).opr_type ≡ (t1 new).opr_type)
        × (rs_nc_close closing false (pos root) t' ≡ (ok tt, closing.free_l1desc root t'))
  unfolding with_group
  rs_nc_open_group-rs_nc_close inside size used zone host found alloc ne kept = (
    grouped env root new path ncid t t1,
    rs_nc_open_group_lem env root new path ncid t t1 inside used zone host found alloc,
    ap (λ (d : L1Desc). d.opr_type)
        (update-other root (with_opr nc_open_group) (update new (with_group ncid) t1) new ne
          ∙ update_self new (with_group ncid) t1),
    close_group closing root (t root) (grouped env root new path ncid t t1)
        (root_grouped env root new path ncid t t1 ne kept) (rw size inside) used zone,
  )

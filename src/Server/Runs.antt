-- ===== src/Server/Runs.antt =====
-- What the entries of Server do for a request whose way over the servers is known (Server.Reach).
use irods_netcdf.Base.{
  ℕ, ◌<◌, ◌≡◌, refl, ap, ◌∙◌, true, false, ◌||◌, some, ℤ, pos, arith, ltb, leb, if◌then◌else◌,
}
use irods_netcdf.Status.{Result, ok}
use irods_netcdf.Close.{OpenedAggInfo, Host, no_host, local_host, remote_host, is_coll}
use irods_netcdf.Server.{
  Request, Node, get_l1desc, in_use, checked_desc, on_host, on_desc, for_data_obj, for_first,
  for_element, for_coll, in_zone, for_obj_of_zone, coll_or_obj, zone_first, coll_first,
}
use irods_netcdf.Server.Reach.{
  InZone, Abroad, lib_at, file_of, Usable, Reaches, here, by_zone, by_coll, ObjReaches, at_host,
  in_other_zone,
}

module _ {Lib In Out : Type 0} (req : Request Lib In Out) (fwd : InZone req)
    (net : ℕ → Node Lib In Out) where
  pub checked_desc_lem :
      (k inx : ℕ) → Usable net k inx → checked_desc req (net k) (pos inx) ≡ ok ((net k).table inx)
  unfolding checked_desc in_use
  checked_desc_lem k inx u =
      let from = u.from_two in
      let to = u.to_num in
      let in_range : (ltb inx 2 || leb (net k).num_l1_desc inx) ≡ false = ground arith in
      rw in_range (rw u.inuse refl)

  pub get_l1desc_lem :
      (k inx : ℕ)
      → inx < (net k).num_l1_desc
      → get_l1desc req (net k) (pos inx) ≡ ok ((net k).table inx)
  unfolding get_l1desc
  get_l1desc_lem k inx lt =
      let in_range : leb (net k).num_l1_desc inx ≡ false = ground arith in rw in_range refl

  module _ (entry : Node Lib In Out → In → Result Out)
      (native_entry : (node : Node Lib In Out) (inp : In)
        → req.native inp ≡ true
        → entry node inp ≡ req.run (node.libs (req.ncid inp)) inp)
      (linked : (k c : ℕ) (inp : In) → (net k).rc c inp ≡ entry (net c) inp) where
    on_host-run :
        (k : ℕ) (h : Host) (n : ℤ) (lib : Lib) (inp : In)
        → lib_at net k h n ≡ some lib
        → on_host req (net k) h n inp ≡ req.run lib inp
    unfolding on_host
    on_host-run k (no_host status) n lib inp e = cc
    on_host-run k local_host n lib inp e =
        let same : (net k).libs n ≡ lib = cc in ap (λ (l : Lib). req.run l inp) same
    on_host-run k (remote_host c) n lib inp e =
        let same : (net c).libs n ≡ lib = cc in
        linked k c (req.to_server n inp)
        ∙ native_entry (net c) (req.to_server n inp) (fwd.server_native n inp)
        ∙ ap (λ (m : ℤ). req.run ((net c).libs m) (req.to_server n inp)) (fwd.server_ncid n inp)
        ∙ fwd.server_run n ((net c).libs n) inp
        ∙ ap (λ (l : Lib). req.run l inp) same

    pub for_data_obj-run :
        (k inx : ℕ) (lib : Lib) (inp : In)
        → inx < (net k).num_l1_desc
        → req.ncid inp ≡ pos inx
        → file_of net k ((net k).table inx) ≡ some lib
        → for_data_obj req (net k) inp ≡ req.run lib inp
    unfolding for_data_obj on_desc
    for_data_obj-run k inx lib inp lt is_inx e =
        let d = (net k).table inx in
        rw is_inx
          (rw (get_l1desc_lem k inx lt) (on_host-run k ((net k).host_of d) d.l3desc_inx lib inp e))

    coll_or_obj-obj :
        (k inx : ℕ) (lib : Lib) (inp : In)
        → inx < (net k).num_l1_desc
        → req.ncid inp ≡ pos inx
        → is_coll ((net k).table inx).plugin_data ≡ false
        → file_of net k ((net k).table inx) ≡ some lib
        → coll_or_obj req (net k) ((net k).table inx) inp ≡ req.run lib inp
    unfolding coll_or_obj
    coll_or_obj-obj k inx lib inp lt is_inx no_coll e =
        rw no_coll (for_data_obj-run k inx lib inp lt is_inx e)

    coll_or_obj-coll :
        (k inx first : ℕ) (a : OpenedAggInfo) (lib : Lib) (inp : In)
        → inx < (net k).num_l1_desc
        → req.ncid inp ≡ pos inx
        → ((net k).table inx).plugin_data ≡ some a
        → is_coll (some a) ≡ true
        → a.obj_ncid0 ≡ pos first
        → first < (net k).num_l1_desc
        → file_of net k ((net k).table first) ≡ some lib
        → coll_or_obj req (net k) ((net k).table inx) inp ≡ req.run lib inp
    unfolding coll_or_obj for_coll for_element for_first
    coll_or_obj-coll k inx first a lib inp lt is_inx plugin coll is_first first_lt e = rw plugin (
        rw coll (
          rw (ap (get_l1desc req (net k)) is_inx ∙ get_l1desc_lem k inx lt) (
            rw plugin (
              rw is_first (
                for_data_obj-run k first lib (req.to_element (pos first) inp) first_lt
                  (fwd.element_ncid (pos first) inp) e
                ∙ fwd.element_run (pos first) lib inp)))))

  native_zone_first :
      (node : Node Lib In Out) (inp : In)
      → req.native inp ≡ true
      → zone_first req node inp ≡ req.run (node.libs (req.ncid inp)) inp
  unfolding zone_first
  native_zone_first node inp e = rw e refl

  module _ (abroad : Abroad req)
      (linked : (k c : ℕ) (inp : In) → (net k).rc c inp ≡ zone_first req (net c) inp) where
    -- An entry that asks for the zone first gives what the library gives that has the file open.
    pub zone_first-run :
        {k : ℕ} {n : ℤ} {lib : Lib}
        → Reaches net k n lib
        → (inp : In) → req.native inp ≡ false
        → req.ncid inp ≡ n
        → zone_first req (net k) inp ≡ req.run lib inp
    unfolding zone_first in_zone
    zone_first-run (here {k} {inx} {lib} u zone no_coll e) inp native is_inx = rw native (
        rw (ap (checked_desc req (net k)) is_inx ∙ checked_desc_lem k inx u) (
          rw zone (
            coll_or_obj-obj (zone_first req) native_zone_first linked k inx lib inp u.to_num is_inx
              no_coll e)))
    zone_first-run (by_zone {k} {inx} {c} {n} {lib} u zone no_coll r) inp native is_inx =
        rw native (
          rw (ap (checked_desc req (net k)) is_inx ∙ checked_desc_lem k inx u) (
            rw zone (
              linked k c (req.to_zone n inp)
              ∙ zone_first-run r (req.to_zone n inp) (abroad.zone_native n inp native)
                  (abroad.zone_ncid n inp)
              ∙ abroad.zone_run n lib inp)))
    zone_first-run (by_coll {k} {inx} {first} {a} {lib} u zone plugin coll is_first lt e) inp native
          is_inx =
        rw native (
          rw (ap (checked_desc req (net k)) is_inx ∙ checked_desc_lem k inx u) (
            rw zone (
              coll_or_obj-coll (zone_first req) native_zone_first linked k inx first a lib inp
                u.to_num is_inx plugin coll is_first lt e)))

  pub coll_first_lem :
      (k inx : ℕ) (coll : In → Result Out) (inp : In)
      → Usable net k inx
      → req.native inp ≡ false
      → req.ncid inp ≡ pos inx
      → coll_first req (net k) coll inp ≡ (
          if is_coll ((net k).table inx).plugin_data
          then coll inp
          else for_obj_of_zone req (net k) inp)
  unfolding coll_first
  coll_first_lem k inx coll inp u native is_inx =
      rw native (rw (ap (checked_desc req (net k)) is_inx ∙ checked_desc_lem k inx u) refl)

  pub native_coll_first :
      (coll : Node Lib In Out → In → Result Out) (node : Node Lib In Out) (inp : In)
      → req.native inp ≡ true
      → coll_first req node (coll node) inp ≡ req.run (node.libs (req.ncid inp)) inp
  unfolding coll_first
  native_coll_first coll node inp e = rw e refl

  module _ (abroad : Abroad req) (coll : Node Lib In Out → In → Result Out)
      (linked : (k c : ℕ) (inp : In)
        → (net k).rc c inp ≡ coll_first req (net c) (coll (net c)) inp) where
    -- An entry that asks for the collection first gives, for a data object, what the library gives that has
    -- the file open.
    pub coll_first-run :
        {k : ℕ} {n : ℤ} {lib : Lib}
        → ObjReaches net k n lib
        → (inp : In) → req.native inp ≡ false
        → req.ncid inp ≡ n
        → coll_first req (net k) (coll (net k)) inp ≡ req.run lib inp
    unfolding coll_first for_obj_of_zone in_zone
    coll_first-run (at_host {k} {inx} {lib} u zone no_coll e) inp native is_inx = rw native (
        rw (ap (checked_desc req (net k)) is_inx ∙ checked_desc_lem k inx u) (
          rw no_coll (
            rw (ap (get_l1desc req (net k)) is_inx ∙ get_l1desc_lem k inx u.to_num) (
              rw zone (
                for_data_obj-run (λ node. coll_first req node (coll node)) (native_coll_first coll)
                  linked k inx lib inp u.to_num is_inx e)))))
    coll_first-run (in_other_zone {k} {inx} {c} {n} {lib} u zone no_coll r) inp native is_inx =
        rw native (
          rw (ap (checked_desc req (net k)) is_inx ∙ checked_desc_lem k inx u) (
            rw no_coll (
              rw (ap (get_l1desc req (net k)) is_inx ∙ get_l1desc_lem k inx u.to_num) (
                rw zone (
                  linked k c (req.to_zone n inp)
                  ∙ coll_first-run r (req.to_zone n inp) (abroad.zone_native n inp native)
                      (abroad.zone_ncid n inp)
                  ∙ abroad.zone_run n lib inp)))))

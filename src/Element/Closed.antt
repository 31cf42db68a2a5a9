-- ===== src/Element/Closed.antt =====
-- What the time range of a file (api/src/rsNcGetAggElement.cpp) leaves open: files of the library, and
-- descriptors of the server.
use irods_netcdf.Base.{
  ℕ, ◌≡◌, ◌≢◌, refl, sym, ◌∙◌, Bool, Option, none, some, List, ℤ, ◌⊎◌, inl, inr, true, false, ◌==◌,
  Bool-cases, arith,
}
use irods_netcdf.Status.{Result, ok, err, fault, foreign}
use irods_netcdf.Inq.{NcInqOut}
use irods_netcdf.Close.{L1Desc, Table, Host, no_host, local_host, remote_host}
use irods_netcdf.Close.Freed.{Freed, Located}
use irods_netcdf.Open.Balanced.{Taken, SameUse, Balanced, Freed-SameUse}
use irods_netcdf.Element.{
  ElementLib, DataObjInfo, inquired, file_opened, agg_element_of_file, ElementEnv, ElementRun,
  freed_after, element_on, desc_opened, element_in, rs_nc_get_agg_element,
}

-- An opening that succeeds gives the id of a file that was not open, and that is open behind it; nothing else
-- changes.
abbrev pub Opened : {S : Type 0} → (S → ℕ → Bool) → S → (ℤ ⊎ ℕ) × S → Type 0
Opened is_open s0 (inl status, s) = (n : ℕ) → is_open s n ≡ is_open s0 n
Opened is_open s0 (inr ncid, s) =
    (is_open s0 ncid ≡ false)
    × (is_open s ncid ≡ true)
    × ((n : ℕ) → n ≢ ncid → is_open s n ≡ is_open s0 n)

-- The ids of the files that the library has open: an opening adds one, the closing of an open one takes it
-- away, and an inquiry changes none. Nothing is said of the closing of an id that is not open.
pub record OpenIds {S R : Type 0} (lib : ElementLib S R) (is_open : S → ℕ → Bool) : Type 0 where
  pub by_open : (path : List ℕ) (s : S) → Opened is_open s (lib.nc_open path s)
  pub by_close :
      (ncid : ℕ) (s : S) → is_open s ncid ≡ true → is_open (lib.nc_close ncid s) ncid ≡ false
  pub by_close_other :
      (ncid : ℕ) (s : S) (n : ℕ)
      → is_open s ncid ≡ true
      → n ≢ ncid
      → is_open (lib.nc_close ncid s) n ≡ is_open s n
  pub by_inq : (ncid : ℕ) (s : S) (n : ℕ) → is_open (lib.nc_inq ncid s).1 n ≡ is_open s n
  pub inq_returns : (ncid : ℕ) (s : S) → (lib.nc_inq ncid s).0 ≢ fault

-- The same descriptors in use, and the same files open.
abbrev pub Restored : {S : Type 0} → (S → ℕ → Bool) → Table → S → ElementRun S → Type 0
Restored is_open t s (r, t1, s1) = SameUse t t1 × ((n : ℕ) → is_open s1 n ≡ is_open s n)

module _ {S R : Type 0} (lib : ElementLib S R) (is_open : S → ℕ → Bool)
    (ids : OpenIds lib is_open) where
  -- Behind the closing of the file that was opened in the state s0.
  closed_again :
      (ncid : ℕ) (s0 s : S)
      → is_open s0 ncid ≡ false
      → is_open s ncid ≡ true
      → ((n : ℕ) → n ≢ ncid → is_open s n ≡ is_open s0 n)
      → (n : ℕ) → is_open (lib.nc_close ncid s) n ≡ is_open s0 n
  closed_again ncid s0 s shut opened others n = elim (Bool-cases (n == ncid)) [
    | inl same ↦ let e : n ≡ ncid = ground arith in rw e (ids.by_close ncid s opened ∙ sym shut)
    | inr different ↦
        let ne : n ≢ ncid = λ e. ground arith in ids.by_close_other ncid s n opened ne ∙ others n ne
  ]

  inquired-ids :
      (info : DataObjInfo) (ncid : ℕ) (s0 : S) (r : Result NcInqOut × S)
      → r.0 ≢ fault
      → is_open s0 ncid ≡ false
      → is_open r.1 ncid ≡ true
      → ((n : ℕ) → n ≢ ncid → is_open r.1 n ≡ is_open s0 n)
      → (n : ℕ) → is_open (inquired lib info ncid r).1 n ≡ is_open s0 n
  unfolding inquired
  inquired-ids info ncid s0 (ok inq, s) returns = closed_again ncid s0 s
  inquired-ids info ncid s0 (err e, s) returns = closed_again ncid s0 s
  inquired-ids info ncid s0 (fault, s) returns = absurd (returns refl)

  file_opened-ids :
      (info : DataObjInfo) (s0 : S) (r : (ℤ ⊎ ℕ) × S)
      → Opened is_open s0 r
      → (n : ℕ) → is_open (file_opened lib info r).1 n ≡ is_open s0 n
  unfolding file_opened
  file_opened-ids info s0 (inl status, s) h = h
  file_opened-ids info s0 (inr ncid, s) (shut, opened, others) =
      inquired-ids info ncid s0 (lib.nc_inq ncid s) (ids.inq_returns ncid s) shut
        (ids.by_inq ncid s ncid ∙ opened) (λ n ne. ids.by_inq ncid s n ∙ others n ne)

  agg_element_of_file-ids :
      (info : Option DataObjInfo) (s : S) (n : ℕ)
      → is_open (agg_element_of_file lib info s).1 n ≡ is_open s n
  unfolding agg_element_of_file
  agg_element_of_file-ids none s n = refl
  agg_element_of_file-ids (some info) s n =
      file_opened-ids info s (lib.nc_open info.file_path s) (ids.by_open info.file_path s) n

  module _ (env : ElementEnv)
      (by_free : (inx : ℕ) (t : Table) → Freed inx t (env.free_l1desc inx t)) where
    element_on-Restored :
        (h : Host) (path : List ℕ) (inx : ℕ) (t t1 : Table) (s : S)
        → Located h
        → Taken inx t t1
        → Restored is_open t s (element_on lib env h path inx t1 s)
    unfolding element_on freed_after
    element_on-Restored (no_host status) path inx t t1 s located taken = absurd located
    element_on-Restored local_host path inx t t1 s located taken = (
      Freed-SameUse inx t t1 (env.free_l1desc inx t1) taken (by_free inx t1),
      agg_element_of_file-ids (env.info_of (t1 inx)) s,
    )
    element_on-Restored (remote_host conn) path inx t t1 s located taken =
        (Freed-SameUse inx t t1 (env.free_l1desc inx t1) taken (by_free inx t1), λ n. refl)

    desc_opened-Restored :
        (path : List ℕ) (r : Result ℕ × Table) (t : Table) (s : S)
        → ((d : L1Desc) → Located (env.host_of d))
        → Balanced t r
        → Restored is_open t s (desc_opened lib env path r s)
    unfolding desc_opened
    desc_opened-Restored path (ok inx, t1) t s located h =
        element_on-Restored (env.host_of (t1 inx)) path inx t t1 s (located (t1 inx)) h
    desc_opened-Restored path (err e, t1) t s located h = (h, λ n. refl)
    desc_opened-Restored path (fault, t1) t s located h = absurd h

    element_in-Restored :
        (h : Host) (path : List ℕ) (t : Table) (s : S)
        → ((d : L1Desc) → Located (env.host_of d))
        → Balanced t (env.data_obj_open path t)
        → Restored is_open t s (element_in lib env h path t s)
    unfolding element_in
    element_in-Restored (no_host status) path t s located opens = (λ j. refl, λ n. refl)
    element_in-Restored local_host path t s located opens =
        desc_opened-Restored path (env.data_obj_open path t) t s located opens
    element_in-Restored (remote_host conn) path t s located opens = (λ j. refl, λ n. refl)

    -- Where the host of every object that is opened can be found: whatever rsNcGetAggElement gives, an error
    -- included, the same descriptors are in use behind it as before it, and the same files of the library are
    -- open, if opening a data object takes a descriptor or none, freeL1desc frees the one that it is given, the
    -- library opens a file under an id that is not in use and closes an open id, as OpenIds states it, and the
    -- inquiry returns.
    pub rs_nc_get_agg_element-Restored :
        (path : List ℕ) (t : Table) (s : S)
        → ((d : L1Desc) → Located (env.host_of d))
        → Balanced t (env.data_obj_open path t)
        → Restored is_open t s (rs_nc_get_agg_element lib env path t s)
    unfolding rs_nc_get_agg_element
    rs_nc_get_agg_element-Restored path t s located opens =
        element_in-Restored (env.zone_of path) path t s located opens

  -- For an object of this zone whose host cannot be found, the descriptor that was opened stays in use.
  pub rs_nc_get_agg_element-no_host :
      (env : ElementEnv) (path : List ℕ) (t t1 : Table) (s : S) (inx : ℕ) (status : ℤ)
      → env.zone_of path ≡ local_host
      → env.data_obj_open path t ≡ (ok inx, t1)
      → env.host_of (t1 inx) ≡ no_host status
      → Taken inx t t1
      → (rs_nc_get_agg_element lib env path t s ≡ (err (foreign status), t1, s))
        × ((t1 inx).inuse ≡ true)
  unfolding rs_nc_get_agg_element element_in desc_opened element_on
  rs_nc_get_agg_element-no_host env path t t1 s inx status zone opens missing taken =
      (rw (zone, opens, missing) refl, taken.in_use)

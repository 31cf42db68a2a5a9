-- ===== src/Agg/Collect/Sorted.antt =====
-- What rsNcGetAggInfo collects: every netcdf file once, in the order of time, or it stops at the
-- first file that fails.
use mathlib.Core.List.{Perm, perm_middle}
use mathlib.Core.List.Perm
use irods_netcdf.Base.{
  ℕ, ◌<◌, ◌≡◌, refl, ◌∙◌, true, false, Option, none, some, List, [], ◌∷◌, ◌++◌, codes, strcmp_eq,
  Bool-cases, inl, inr, sym, Option-cases,
}
use irods_netcdf.Status.{Result, ok, err, Err, code, ◌>>=◌, Result-cases, netcdf_invalid_data_type}
use irods_netcdf.Agg.{NcAggElement, NcAggInfo, add_nc_agg_element}
use irods_netcdf.Agg.Shift.{insert_sorted}
use irods_netcdf.Agg.Insert.{Represents, add_nc_agg_element-Represents}
use irods_netcdf.Agg.Order.{IsSorted, insert_sorted-IsSorted, insert_sorted-perm}
use irods_netcdf.Agg.Collect.{
  CollEnt, Loop, nc_agg_info_file_name, got, visit, resume, visit_all, is_netcdf, netcdf_paths,
}

resume-none :
    (status : Option Err) (s : Loop) (rest : Loop → Result Loop)
    → status ≡ none
    → resume status s rest ≡ rest s
resume-none status s rest h = rw h (unfold resume in refl)

resume-some :
    (status : Option Err) (x : Err) (s : Loop) (rest : Loop → Result Loop)
    → status ≡ some x
    → resume status s rest ≡ ok s
resume-some status x s rest h = rw h (unfold resume in refl)

module _ (ptr_array_malloc_len : ℕ) (get_agg_element : List ℕ → Result NcAggElement) where
  -- The elements of the files at these paths.
  abbrev pub Got : List (List ℕ) → List NcAggElement → Type 0
  Got [] [] = Unit {0}
  Got [] (x ∷ xs) = ⊥
  Got (p ∷ ps) [] = ⊥
  Got (p ∷ ps) (x ∷ xs) = (get_agg_element p ≡ ok x) × Got ps xs

  visit_other :
      (coll_name : List ℕ) (ent : CollEnt) (s : Loop)
      → is_netcdf ent ≡ false
      → (s' : Loop) × (visit ptr_array_malloc_len get_agg_element coll_name ent s ≡ ok s')
        × (s'.info ≡ s.info)
        × (s'.status ≡ s.status)
  unfolding visit
  visit_other coll_name ent s h = elim (Bool-cases ent.is_data_obj) [
    | inr o ↦ (s, rw o, refl, refl)
    | inl o ↦
        let t : strcmp_eq ent.data_type (codes "netcdf") ≡ false = rw o at h in
        elim (Bool-cases (strcmp_eq ent.data_name nc_agg_info_file_name)) [
          | inl i ↦ (s, rw (o, t, i), refl, refl)
          | inr i ↦ (
            record s { saved_status = some (code netcdf_invalid_data_type) },
            rw (o, t, i),
            refl,
            refl,
          )
        ]
  ]

  visit_one :
      (coll_name : List ℕ) (ent : CollEnt) (s : Loop)
      → is_netcdf ent ≡ true
      → visit ptr_array_malloc_len get_agg_element coll_name ent s
        ≡ got
            (λ element. add_nc_agg_element ptr_array_malloc_len (some element) (some s.info))
            (get_agg_element (coll_name ++ (b'/' ∷ ent.data_name)))
            s
  unfolding visit
  visit_one coll_name ent s h = elim (Bool-cases ent.is_data_obj) [
    | inr o ↦ cc (rw o at h)
    | inl o ↦ let t : strcmp_eq ent.data_type (codes "netcdf") ≡ true = rw o at h in rw (o, t)
  ]

  visit-ok :
      (coll_name : List ℕ) (ent : CollEnt) (s : Loop) (x : NcAggElement) (info : NcAggInfo)
      → is_netcdf ent ≡ true
      → get_agg_element (coll_name ++ (b'/' ∷ ent.data_name)) ≡ ok x
      → add_nc_agg_element ptr_array_malloc_len (some x) (some s.info) ≡ ok info
      → visit ptr_array_malloc_len get_agg_element coll_name ent s ≡ ok (record s { info = info })
  visit-ok coll_name ent s x info b g a = rw (visit_one coll_name ent s b, g) (unfold got in rw a)

  Got-cons :
      (p : List ℕ) (ps : List (List ℕ)) (els : List NcAggElement)
      → Got (p ∷ ps) els
      → (x : NcAggElement) × (xs : List NcAggElement) × (els ≡ x ∷ xs)
        × (get_agg_element p ≡ ok x)
        × Got ps xs
  Got-cons p ps [] g = absurd g
  Got-cons p ps (x ∷ xs) g = (x, xs, refl, g.0, g.1)

  pub visit_all-IsSorted :
      (coll_name : List ℕ) (ents : List CollEnt) (els : List NcAggElement) (s : Loop)
      (xs : List NcAggElement)
      → 0 < ptr_array_malloc_len
      → Got (netcdf_paths coll_name ents) els
      → s.status ≡ none
      → Represents ptr_array_malloc_len s.info xs
      → IsSorted xs
      → (s' : Loop) × (ys : List NcAggElement) × (visit_all ptr_array_malloc_len get_agg_element
            coll_name ents s
          ≡ ok s')
        × (s'.status ≡ none)
        × Represents ptr_array_malloc_len s'.info ys
        × IsSorted ys
        × Perm ys (els ++ xs)
  unfolding visit_all netcdf_paths
  visit_all-IsSorted coll [] [] s xs m g n r o = (s, xs, refl, n, r, o, Perm.refl xs)
  visit_all-IsSorted coll [] (x ∷ els) s xs m g n r o = absurd g
  visit_all-IsSorted coll (ent ∷ ents) els s xs m g n r o = elim (Bool-cases (is_netcdf ent)) [
    | inr b ↦
        let (t, e, i, st) = visit_other coll ent s b in
        let (s', ys, v, n', r', o', p) =
          visit_all-IsSorted coll ents els t xs m (rw b at g) (st ∙ n) (rw i r) o in
        (
          s',
          ys,
          rw e (
              resume-none _ t (visit_all ptr_array_malloc_len get_agg_element coll ents) (st ∙ n)
              ∙ v),
          n',
          r',
          o',
          p,
        )
    | inl b ↦
        let (x, els', split, h, g') = Got-cons _ _ els (rw b at g) in
        let (info, a, r', _) = add_nc_agg_element-Represents ptr_array_malloc_len x s.info xs m r in
        let (s', ys, v, n'', r'', o', p) =
          visit_all-IsSorted coll ents els' (record s { info = info }) (insert_sorted x xs) m g' n
            r' (insert_sorted-IsSorted x xs o) in
        (
          s',
          ys,
          rw (visit-ok coll ent s x info b h a)
              (resume-none _ _ (visit_all ptr_array_malloc_len get_agg_element coll ents) n ∙ v),
          n'',
          r'',
          o',
          rw split (
              Perm.trans p (
                Perm.trans (Perm.append (Perm.refl els') (insert_sorted-perm x xs))
                  (perm_middle els' xs))),
        )
  ]

  -- Reading two parts of a collection is reading the first, and the second if nothing failed.
  visit_all-append :
      (coll_name : List ℕ) (before after : List CollEnt) (s : Loop)
      → s.status ≡ none
      → visit_all ptr_array_malloc_len get_agg_element coll_name (before ++ after) s ≡ (
          visit_all ptr_array_malloc_len get_agg_element coll_name before s >>= λ t.
          resume t.status t (visit_all ptr_array_malloc_len get_agg_element coll_name after))
  unfolding visit_all
  visit_all-append coll [] after s n = sym (resume-none _ s _ n)
  visit_all-append coll (ent ∷ before) after s n =
      elim (Result-cases (visit ptr_array_malloc_len get_agg_element coll ent s)) [
        | inl (t, e) ↦ rw e (resumed t (visit_all-append coll before after t))
        | inr (inl (x, e)) ↦ rw e
        | inr (inr e) ↦ rw e
      ]
    where
      resumed :
          (t : Loop)
          → (t.status ≡ none
              → visit_all ptr_array_malloc_len get_agg_element coll (before ++ after) t ≡ (
                  visit_all ptr_array_malloc_len get_agg_element coll before t >>= λ u.
                  resume u.status u (visit_all ptr_array_malloc_len get_agg_element coll after)))
          → resume t.status t
              (visit_all ptr_array_malloc_len get_agg_element coll (before ++ after))
            ≡ (resume t.status t (visit_all ptr_array_malloc_len get_agg_element coll before)
                >>= λ u.
                    resume u.status u (visit_all ptr_array_malloc_len get_agg_element coll after))
      resumed t ih = elim (Option-cases t.status) [
        | inl none_ ↦
            rw
              (
                resume-none _ t
                    (visit_all ptr_array_malloc_len get_agg_element coll (before ++ after)) none_,
                resume-none _ t (visit_all ptr_array_malloc_len get_agg_element coll before) none_,
              )
              (ih none_)
        | inr (x, e) ↦
            rw
              (
                resume-some _ x t
                    (visit_all ptr_array_malloc_len get_agg_element coll (before ++ after)) e,
                resume-some _ x t (visit_all ptr_array_malloc_len get_agg_element coll before) e,
              )
              (sym (resume-some _ x t _ e))
      ]

  -- The first netcdf file that fails ends the loop: its status is the status of the call, and no
  -- entry behind it is read.
  pub visit_all-err :
      (coll_name : List ℕ) (before after : List CollEnt) (ent : CollEnt) (els : List NcAggElement)
      (s : Loop) (xs : List NcAggElement) (x : Err)
      → 0 < ptr_array_malloc_len
      → Got (netcdf_paths coll_name before) els
      → s.status ≡ none
      → Represents ptr_array_malloc_len s.info xs
      → IsSorted xs
      → is_netcdf ent ≡ true
      → get_agg_element (coll_name ++ (b'/' ∷ ent.data_name)) ≡ err x
      → (s' : Loop) × (ys : List NcAggElement) × (visit_all ptr_array_malloc_len get_agg_element
            coll_name
            (before ++ ent ∷ after)
            s
          ≡ ok s')
        × (s'.status ≡ some x)
        × Represents ptr_array_malloc_len s'.info ys
        × Perm ys (els ++ xs)
  visit_all-err coll before after ent els s xs x m g n r o b bad =
      let (t, ys, v, n', r', _, p) = visit_all-IsSorted coll before els s xs m g n r o in
      (
        record t { status = some x },
        ys,
        rw (visit_all-append coll before (ent ∷ after) s n, v)
            (rw (resume-none t.status t _ n') (stop t)),
        refl,
        r',
        p,
      )
    where
      stop :
          (t : Loop)
          → visit_all ptr_array_malloc_len get_agg_element coll (ent ∷ after) t
            ≡ ok (record t { status = some x })
      stop t = unfold visit_all in rw (visit_one coll ent t b, bad) (unfold got resume in refl)

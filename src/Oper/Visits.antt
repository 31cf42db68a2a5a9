-- ===== src/Oper/Visits.antt =====
-- What ncOperCollUtil does on a tree of collections: the call on every data object, in order.
use irods_netcdf.Base.{
  ℕ, ◌≡◌, refl, sym, ap, ◌∙◌, true, false, Option, none, some, List, [], ◌∷◌, ◌++◌, ◌-◌, take,
  codes,
}
use irods_netcdf.Status.{ok, err, fault, Err}
use irods_netcdf.Oper.{
  Run, and_then, no_rows, Coll, coll, CollEnts, no_ents, data_obj, sub_coll, is_no_rows, save_obj,
  save_coll, end_coll, child_path, oper_ents, oper_coll, nc_oper_coll_util,
}

module _ {S : Type 0} where
  keep : Option Err → Run (Option Err) S → Run (Option Err) S
  keep saved (ok none, s) = (ok saved, s)
  keep saved (ok (some e), s) = (ok (some e), s)
  keep saved (err e, s) = (err e, s)
  keep saved (fault, s) = (fault, s)

  keep_twice :
      (saved : Option Err) (e : Err) (r : Run (Option Err) S)
      → keep saved (keep (some e) r) ≡ keep (some e) r
  unfolding keep
  keep_twice saved e (ok none, s) = refl
  keep_twice saved e (ok (some e'), s) = refl
  keep_twice saved e (err e', s) = refl
  keep_twice saved e (fault, s) = refl

  -- Neither an error of its own nor CAT_NO_ROWS_FOUND as a saved one.
  Own : Run (Option Err) S → Type 0
  Own (ok none, s) = Unit {0}
  Own (ok (some e), s) = is_no_rows e ≡ false
  Own (err e, s) = ⊥
  Own (fault, s) = Unit {0}

  unfoldable pub HasNoRows : Run (Unit {0}) S → Type 0
  HasNoRows (ok u, s) = Unit {0}
  HasNoRows (err e, s) = is_no_rows e ≡ false
  HasNoRows (fault, s) = Unit {0}

  save_obj-and_then :
      (saved : Option Err) (r : Run (Unit {0}) S) (k next : Option Err → S → Run (Option Err) S)
      → and_then (save_obj saved r k) next
        ≡ save_obj saved r (λ saved' s. and_then (k saved' s) next)
  unfolding save_obj and_then
  save_obj-and_then saved (ok u, s) k next = refl
  save_obj-and_then saved (err e, s) k next = refl
  save_obj-and_then saved (fault, s) k next = refl

  save_obj_cong :
      (saved : Option Err) (r : Run (Unit {0}) S) {k k' : Option Err → S → Run (Option Err) S}
      → ((saved' : Option Err) (s : S) → k saved' s ≡ k' saved' s)
      → save_obj saved r k ≡ save_obj saved r k'
  unfolding save_obj
  save_obj_cong saved (ok u, s) h = h saved s
  save_obj_cong saved (err e, s) h = h (some e) s
  save_obj_cong saved (fault, s) h = refl

  save_obj-keep :
      (saved : Option Err) (r : Run (Unit {0}) S) (k : Option Err → S → Run (Option Err) S)
      → ((saved' : Option Err) (s : S) → k saved' s ≡ keep saved' (k none s))
      → save_obj saved r k ≡ keep saved (save_obj none r k)
  unfolding save_obj keep
  save_obj-keep saved (ok u, s) k h = h saved s
  save_obj-keep saved (err e, s) k h = rw (h (some e) s) (sym (keep_twice saved e (k none s)))
  save_obj-keep saved (fault, s) k h = refl

  save_coll-rest :
      (saved : Option Err) (r : Run (Option Err) S) {k next : Option Err → S → Run (Option Err) S}
      → ((saved' : Option Err) (s : S) → k saved' s ≡ next saved' s)
      → Own r
      → save_coll saved (end_coll no_rows r) k ≡ and_then (keep saved r) next
  unfolding save_coll end_coll and_then keep Own
  save_coll-rest saved (ok none, s) same h = same saved s
  save_coll-rest saved (ok (some e), s) same h = rw h (same (some e) s)
  save_coll-rest saved (err e, s) same h = absurd h
  save_coll-rest saved (fault, s) same h = refl

module _ {S : Type 0} (max_name_len : ℕ) (oper : List ℕ → S → Run (Unit {0}) S) where
  -- The call on one path after the other, with the last error.
  unfoldable pub visits : List (List ℕ) → Option Err → S → Run (Option Err) S
  visits [] saved s = (ok saved, s)
  visits (p ∷ ps) saved s = save_obj saved (oper p s) (λ saved' s'. visits ps saved' s')

  -- What is done behind a call: a success keeps the last error, and an error takes its place.
  unfoldable pub after_call :
      Option Err → Run (Unit {0}) S → (Option Err → S → Run (Unit {0}) S) → Run (Unit {0}) S
  after_call last (ok u, s) next = next last s
  after_call last (err e, s) next = next (some e) s
  after_call last (fault, s) next = (fault, s)

  -- A call on each path in order, then the last error.
  unfoldable pub call_each : List (List ℕ) → Option Err → S → Run (Unit {0}) S
  unfolding after_call
  call_each [] none s = (ok tt, s)
  call_each [] (some e) s = (err e, s)
  call_each (p ∷ ps) last s = after_call last (oper p s) (λ last' s'. call_each ps last' s')

  end_coll-save_obj :
      (saved : Option Err) (r : Run (Unit {0}) S) (k : Option Err → S → Run (Option Err) S)
      (next : Option Err → S → Run (Unit {0}) S)
      → ((last : Option Err) (s : S) → end_coll no_rows (k last s) ≡ next last s)
      → end_coll no_rows (save_obj saved r k) ≡ after_call saved r next
  unfolding end_coll save_obj after_call
  end_coll-save_obj saved (ok u, s) k next h = h saved s
  end_coll-save_obj saved (err e, s) k next h = h (some e) s
  end_coll-save_obj saved (fault, s) k next h = refl

  end_coll-visits :
      (ps : List (List ℕ)) (saved : Option Err) (s : S)
      → end_coll no_rows (visits ps saved s) ≡ call_each ps saved s
  unfolding visits call_each end_coll
  end_coll-visits [] none s = refl
  end_coll-visits [] (some e) s = refl
  end_coll-visits (p ∷ ps) saved s =
      end_coll-save_obj saved (oper p s) (visits ps) (call_each ps) (end_coll-visits ps)

  -- The path of a data object, as a text in a buffer of MAX_NAME_LEN characters.
  unfoldable pub object_path : List ℕ → List ℕ → List ℕ
  object_path coll_name data_name = take (max_name_len - 1) (coll_name ++ codes "/" ++ data_name)

  -- The data objects of a tree, without those of special collections.
  unfoldable mutual
    unfolding object_path

    pub ent_paths : CollEnts → List (List ℕ)
    ent_paths no_ents = []
    ent_paths (data_obj coll_name data_name es) = object_path coll_name data_name ∷ ent_paths es
    ent_paths (sub_coll true c es) = ent_paths es
    ent_paths (sub_coll false c es) = coll_paths c ++ ent_paths es

    pub coll_paths : Coll → List (List ℕ)
    coll_paths (coll opened true es last) = []
    coll_paths (coll opened false es last) = ent_paths es

  -- Every collection is opened and read to its end.
  unfoldable mutual
    pub EntsListed : CollEnts → Type 0
    EntsListed no_ents = Unit {0}
    EntsListed (data_obj coll_name data_name es) = EntsListed es
    EntsListed (sub_coll true c es) = EntsListed es
    EntsListed (sub_coll false c es) = IsListed c × EntsListed es

    pub IsListed : Coll → Type 0
    IsListed (coll (some e) mounted es last) = ⊥
    IsListed (coll none true es last) = Unit {0}
    IsListed (coll none false es last) = (last ≡ no_rows) × EntsListed es

  visits-append :
      (ps qs : List (List ℕ)) (saved : Option Err) (s : S)
      → visits (ps ++ qs) saved s ≡ and_then (visits ps saved s) (visits qs)
  unfolding visits and_then
  visits-append [] qs saved s = refl
  visits-append (p ∷ ps) qs saved s =
      save_obj_cong saved (oper p s) (λ saved' s'. visits-append ps qs saved' s')
      ∙ sym (save_obj-and_then saved (oper p s) (visits ps) (visits qs))

  visits-keep :
      (ps : List (List ℕ)) (saved : Option Err) (s : S)
      → visits ps saved s ≡ keep saved (visits ps none s)
  unfolding visits keep
  visits-keep [] saved s = refl
  visits-keep (p ∷ ps) saved s = save_obj-keep saved (oper p s) (visits ps) (visits-keep ps)

  save_obj-Own :
      (saved : Option Err) (r : Run (Unit {0}) S) (k : Option Err → S → Run (Option Err) S)
      → ((s : S) → Own (k saved s))
      → ((e : Err) (s : S) → is_no_rows e ≡ false → Own (k (some e) s))
      → HasNoRows r
      → Own (save_obj saved r k)
  unfolding save_obj Own HasNoRows
  save_obj-Own saved (ok u, s) k same new h = same s
  save_obj-Own saved (err e, s) k same new h = new e s h
  save_obj-Own saved (fault, s) k same new h = tt

  module _ (has_no_rows : (p : List ℕ) (s : S) → HasNoRows (oper p s)) where
    visits-some-Own :
        (ps : List (List ℕ)) (e : Err) (s : S) → is_no_rows e ≡ false → Own (visits ps (some e) s)
    unfolding visits Own
    visits-some-Own [] e s h = h
    visits-some-Own (p ∷ ps) e s h =
        save_obj-Own (some e) (oper p s) (visits ps) (λ s'. visits-some-Own ps e s' h)
          (visits-some-Own ps) (has_no_rows p s)

    visits-Own : (ps : List (List ℕ)) (s : S) → Own (visits ps none s)
    unfolding visits Own
    visits-Own [] s = tt
    visits-Own (p ∷ ps) s =
        save_obj-Own none (oper p s) (visits ps) (visits-Own ps) (visits-some-Own ps)
          (has_no_rows p s)

    mutual
      unfolding oper_ents oper_coll visits ent_paths child_path object_path EntsListed end_coll

      oper_ents-visits :
          (es : CollEnts) (saved : Option Err) (s : S)
          → EntsListed es
          → oper_ents max_name_len oper es saved s ≡ visits (ent_paths es) saved s
      oper_ents-visits no_ents saved s h = refl
      oper_ents-visits (data_obj coll_name data_name es) saved s h =
          save_obj_cong saved (oper (object_path coll_name data_name) s)
            (λ saved' s'. oper_ents-visits es saved' s' h)
      oper_ents-visits (sub_coll true c es) saved s h = oper_ents-visits es saved s h
      oper_ents-visits (sub_coll false c es) saved s (hc, hs) =
          let e = oper_coll-visits c s hc in
          let rest : (saved' : Option Err) (s' : S)
              → oper_ents max_name_len oper es saved' s' ≡ visits (ent_paths es) saved' s' =
            λ saved' s'. oper_ents-visits es saved' s' hs in
          rw e (
            save_coll-rest saved (visits (coll_paths c) none s) rest (visits-Own (coll_paths c) s)
            ∙ ap (λ (r : Run (Option Err) S). and_then r (visits (ent_paths es)))
                (sym (visits-keep (coll_paths c) saved s))
            ∙ sym (visits-append (coll_paths c) (ent_paths es) saved s))

      oper_coll-visits :
          (c : Coll) (s : S)
          → IsListed c
          → oper_coll max_name_len oper c s ≡ end_coll no_rows (visits (coll_paths c) none s)
      oper_coll-visits (coll (some e) mounted es last) s h = absurd h
      oper_coll-visits (coll none true es last) s h = refl
      oper_coll-visits (coll none false es last) s (e, hs) =
          rw (e, oper_ents-visits es none s hs) refl

    -- Where every collection of the tree can be opened and read to its end, and the call on an object never
    -- gives CAT_NO_ROWS_FOUND, ncOperCollUtil with the option -r makes the call on every data object of the tree
    -- once, in the order of the tree, but for those of special collections; it gives the last error of the
    -- calls, or 0 if there is none.
    pub nc_oper_coll_util-visits :
        (c : Coll) (s : S)
        → IsListed c
        → nc_oper_coll_util max_name_len oper true c s ≡ call_each (coll_paths c) none s
    unfolding nc_oper_coll_util
    nc_oper_coll_util-visits c s h = oper_coll-visits c s h ∙ end_coll-visits (coll_paths c) none s

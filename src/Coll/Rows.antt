-- ===== src/Coll/Rows.antt =====
-- The rows that the files of a collection hold (_rsNcGetVarsByTypeForColl of
-- api/src/rsNcGetVarsByType.cpp).
use irods_netcdf.Base.{
  ℕ, ◌+◌, ◌*◌, ◌<◌, ◌≤◌, ◌≡◌, refl, some, List, [], ◌∷◌, ◌++◌, ap, sym, ◌∙◌, length, take, drop,
  append_assoc,
}
use irods_netcdf.Status.{ok}
use irods_netcdf.Inq.{NcInqOut}
use irods_netcdf.Vars.{NcGetVarInp, NcGetVarOut}
use irods_netcdf.Agg.{NcAggElement}
use irods_netcdf.Coll.{OpenedAggInfo, ObjOps, read_element}

-- The rows of a variable, one for each time step, as they stand in a buffer.
abbrev pub flatten : {V : Type 0} → List (List V) → List V
flatten [] = []
flatten (r ∷ rs) = r ++ flatten rs

module _ {V : Type 0} (ops : ObjOps V) (inp : NcGetVarInp) (t : ℕ) (inq0 : NcInqOut) (width : ℕ)
    (Open : OpenedAggInfo → Type 0) where
  -- In the states that `Open` describes, whatever file is open, a read of one row or more of element i, all
  -- of them within the element, gives these rows and leaves such a state.
  pub record Serves (i : ℕ) (rows : List (List V)) : Type 0 where
    pub out : ℕ → ℕ → OpenedAggInfo → NcGetVarOut V
    pub after : OpenedAggInfo → OpenedAggInfo
    pub reads :
        (start count : ℕ) (o : OpenedAggInfo)
        → Open o
        → 0 < count
        → start + count ≤ length rows
        → read_element ops inp (some t) inq0 i start count o ≡ ok (out start count o, after o)
    pub still_open : (o : OpenedAggInfo) → Open o → Open (after o)
    pub out_buf :
        (start count : ℕ) (o : OpenedAggInfo)
        → (out start count o).buf ≡ flatten (take count (drop start rows))
    pub out_len :
        (start count : ℕ) (o : OpenedAggInfo)
        → start + count ≤ length rows
        → (out start count o).len ≡ count * width

  -- Each file serves as many rows as the description says.
  abbrev pub AllServe : ℕ → List NcAggElement → List (List (List V)) → Type 0
  AllServe i [] [] = Unit {0}
  AllServe i [] (r ∷ rs) = ⊥
  AllServe i (x ∷ xs) [] = ⊥
  AllServe i (x ∷ xs) (r ∷ rs) = (length r ≡ x.arraylen) × Serves i r × AllServe (i + 1) xs rs

-- All rows of a collection, in the order of its files.
abbrev pub all_rows : {V : Type 0} → List (List (List V)) → List (List V)
all_rows [] = []
all_rows (r ∷ rs) = r ++ all_rows rs

pub flatten-append :
    {V : Type 0} (xs ys : List (List V)) → flatten (xs ++ ys) ≡ flatten xs ++ flatten ys
flatten-append [] ys = refl
flatten-append (x ∷ xs) ys =
    ap (◌++◌ x) (flatten-append xs ys) ∙ sym (append_assoc x (flatten xs) (flatten ys))

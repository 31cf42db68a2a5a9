-- ===== src/Agg/Collect.antt =====
-- api/src/rsNcGetAggInfo.cpp: the aggregate description is built from the files of a collection.
-- The collection is the list of entries that rsReadCollection returns and the status that ends it;
-- rsNcGetAggElement, pack_struct and rsDataObjPut are calls of the server: parameters.
pub mod Sorted
use irods_netcdf.Base.{
  ℕ, Bool, true, false, Option, none, some, List, [], ◌∷◌, ◌++◌, if◌then◌else◌, codes, strcmp_eq,
}
use irods_netcdf.Status.{
  Result, ok, err, fault, ◌>>=◌, Err, code, netcdf_invalid_data_type, cat_no_rows_found,
}
use irods_netcdf.Agg.{NcAggElement, NcAggInfo, add_nc_agg_element}

-- collEnt_t, as far as it is read.
pub record CollEnt : Type 0 where
  pub is_data_obj : Bool
  pub data_type : List ℕ
  pub data_name : List ℕ

-- The variables of the loop: the description, `status` (`none` where it is not negative) and
-- `savedStatus`.
pub record Loop : Type 0 where
  pub info : NcAggInfo
  pub status : Option Err
  pub saved_status : Option Err

abbrev pub nc_agg_info_file_name : List ℕ
nc_agg_info_file_name = codes ".aggInfo"

-- The first `Err` that is there.
abbrev pub or_else : Option Err → Option Err → Option Err
or_else none other = other
or_else (some e) other = some e

-- An element that was got is added; a failure of either ends the loop.
added : Result NcAggInfo → Loop → Result Loop
added (ok info) s = ok (record s { info = info })
added (err e) s = ok (record s { status = some e })
added fault s = fault

got : (NcAggElement → Result NcAggInfo) → Result NcAggElement → Loop → Result Loop
unfolding added
got add (ok element) s = added (add element) s
got add (err e) s = ok (record s { status = some e })
got add fault s = fault

-- `break` where the status is negative.
resume : Option Err → Loop → (Loop → Result Loop) → Result Loop
resume none s rest = rest s
resume (some e) s rest = ok s

module _ (ptr_array_malloc_len : ℕ) (get_agg_element : List ℕ → Result NcAggElement) where
  -- One entry of the collection.
  visit : List ℕ → CollEnt → Loop → Result Loop
  unfolding got
  visit coll_name ent s =
      if ent.is_data_obj
      then (if strcmp_eq ent.data_type (codes "netcdf")
          then got (λ element. add_nc_agg_element ptr_array_malloc_len (some element) (some s.info))
              (get_agg_element (coll_name ++ (b'/' ∷ ent.data_name))) s
          else (if strcmp_eq ent.data_name nc_agg_info_file_name
              then ok s
              else ok (record s { saved_status = some (code netcdf_invalid_data_type) })))
      else ok s

  pub visit_all : List ℕ → List CollEnt → Loop → Result Loop
  unfolding visit resume
  visit_all coll_name [] s = ok s
  visit_all coll_name (ent ∷ ents) s =
      visit coll_name ent s >>= λ t. resume t.status t (visit_all coll_name ents)

-- Behind the loop: how the collection ended counts if nothing else failed, then the description is
-- written if the mode says so, and an entry of another type is reported last.
pub finish : Option Err → Bool → (NcAggInfo → Option Err) → Loop → Option Err
finish end_status nc_write put s = elim (or_else s.status end_status) [
  | some e ↦ some e
  | none ↦ if nc_write then or_else (put s.info) s.saved_status else s.saved_status
]

-- The status that ends the reading, without the one that says that there are no more entries.
pub reading_error : Err → Option Err
reading_error (code cat_no_rows_found) = none
reading_error e = some e

-- The files that count: the data objects of type netcdf.
abbrev pub is_netcdf : CollEnt → Bool
is_netcdf ent = if ent.is_data_obj then strcmp_eq ent.data_type (codes "netcdf") else false

unfoldable pub netcdf_paths : List ℕ → List CollEnt → List (List ℕ)
netcdf_paths coll_name [] = []
netcdf_paths coll_name (ent ∷ ents) =
    if is_netcdf ent
    then (coll_name ++ (b'/' ∷ ent.data_name)) ∷ netcdf_paths coll_name ents
    else netcdf_paths coll_name ents

-- rsNcGetAggInfo. `open_error` is what rsOpenCollection fails with; the result is the description,
-- if the collection was opened, and the status.
pub rs_nc_get_agg_info :
    ℕ
    → (List ℕ → Result NcAggElement)
    → Option Err
    → List ℕ
    → List CollEnt
    → Err
    → Bool
    → (NcAggInfo → Option Err)
    → Result (Option NcAggInfo × Option Err)
unfolding finish reading_error
rs_nc_get_agg_info malloc_len get_agg_element (some e) coll_name ents end_status nc_write put =
    ok (none, some e)
rs_nc_get_agg_info malloc_len get_agg_element none coll_name ents end_status nc_write put =
    visit_all malloc_len get_agg_element coll_name ents (record {
      info = record { num_files = 0; nc_object_name = coll_name; nc_agg_element = none };
      status = none;
      saved_status = none;
    })
    >>= λ s. ok (some s.info, finish (reading_error end_status) nc_write put s)

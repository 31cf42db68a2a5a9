-- ===== src/Arch/Server.antt =====
-- _rsNcArchTimeSeries of api/src/rsNcArchTimeSeries.cpp, behind the choice of the server: the source is
-- opened, inquired, archived and closed, and the description of the collection is made again.
use irods_netcdf.Base.{
  ℕ, ◌-◌, ◌*◌, ◌≡◌, refl, Option, none, some, List, [], ◌∷◌, ◌==◌, ◌∙◌, if◌then◌else◌, get_elem?,
  length,
}
use irods_netcdf.Status.{Result, ok, err, fault, ◌>>=◌, deref, code, netcdf_dim_mismatch_err}
use irods_netcdf.NcType.{NcType}
use irods_netcdf.Inq.{NcGenDimOut, NcGenVarOut, NcInqOut}
use irods_netcdf.Agg.{NcAggElement}
use irods_netcdf.Subset.{find_var}
use irods_netcdf.Arch.{FileOps, find_time_dim, get_time_inx_for_arch, arch_partial_time_series}

-- ARCH_FILE_SIZE and ONE_MILLION
abbrev pub arch_file_size : ℕ
arch_file_size = 1024 * 1024 * 1024

abbrev pub one_million : ℕ
one_million = 1024 * 1024

-- The calls of the server, on a state that the model does not look into.
pub record ArchEnv (S V : Type 0) : Type 0 where
  pub nc_open : S → Result ℕ × S
  pub nc_close : ℕ → S → S
  pub nc_inq : ℕ → S → Result NcInqOut × S
  pub read_agg_info : S → Result (List NcAggElement) × S
  pub get_page : S → ℕ → NcGenVarOut → ℕ → ℕ → Result (List V)
  pub get_agg_info : S → Result (Unit {0}) × S
  pub files : FileOps S
  pub split_path_by_key : List ℕ → Result (List ℕ × List ℕ)
  pub as_int : NcType → V → ℕ
  pub invalid_data_type : ℕ

-- The variable of a time dimension has that dimension only.
unfoldable pub var_of_dim : NcGenDimOut → Option NcGenVarOut → Result (NcGenDimOut × NcGenVarOut)
var_of_dim d none = err (code netcdf_dim_mismatch_err)
var_of_dim d (some v) =
    if (length v.dim_id == 1) then ok (d, v) else err (code netcdf_dim_mismatch_err)

unfoldable pub time_var_at : NcInqOut → Option ℕ → Result (NcGenDimOut × NcGenVarOut)
unfolding find_var var_of_dim
time_var_at inq none = err (code netcdf_dim_mismatch_err)
time_var_at inq (some i) =
    deref (get_elem? inq.dim i) >>= λ d. var_of_dim d (find_var d.name inq.var)

unfoldable pub time_var : NcInqOut → Result (NcGenDimOut × NcGenVarOut)
unfolding find_time_dim time_var_at
time_var inq = time_var_at inq (find_time_dim 0 inq.dim)

-- The end of the last file; without files its index is below 0.
unfoldable pub last_end_time : List NcAggElement → Result ℕ
last_end_time [] = fault
last_end_time (x ∷ []) = ok x.end_time
last_end_time (x ∷ y ∷ xs) = last_end_time (y ∷ xs)

-- fileSizeLimit in bytes.
unfoldable pub file_size_limit : ℕ → ℕ
file_size_limit limit = if (limit == 0) then arch_file_size else limit * one_million

module _ {S V : Type 0} (env : ArchEnv S V) where
  abbrev pub chain : {A B : Type 0} → Result A × S → (A → S → Result B × S) → Result B × S
  chain (ok a, s) next = next a s
  chain (err e, s) next = (err e, s)
  chain (fault, s) next = (fault, s)

  -- Every return of an error closes the source before.
  abbrev pub or_close : {A B : Type 0} → ℕ → Result A × S → (A → S → Result B × S) → Result B × S
  or_close ncid (ok a, s) next = next a s
  or_close ncid (err e, s) next = (err e, env.nc_close ncid s)
  or_close ncid (fault, s) next = (fault, s)

  -- The end of the archive by the description, and from there the first new time step.
  unfoldable pub new_start :
      ℕ
      → NcGenDimOut × NcGenVarOut
      → S
      → List NcAggElement
      → Result (ℕ × Option (List NcAggElement))
  unfolding last_end_time get_time_inx_for_arch
  new_start ncid dv s files = last_end_time files >>= λ end_time.
      get_time_inx_for_arch env.as_int env.invalid_data_type (env.get_page s ncid dv.1)
        dv.1.data_type dv.0.array_len end_time
      >>= λ start. ok (start, some files)

  -- archPartialTimeSeries from `start` to the last time step.
  unfoldable pub arch_from :
      List ℕ
      → ℕ
      → NcInqOut
      → NcGenDimOut
      → ℕ × Option (List NcAggElement)
      → S
      → Result (Unit {0}) × S
  unfolding arch_partial_time_series file_size_limit
  arch_from agg_collection limit inq d start s =
      arch_partial_time_series env.files env.split_path_by_key inq agg_collection start.1 start.0
        (d.array_len - 1) (file_size_limit limit) s

  -- What follows the archive: the source is closed, and after a success the description is made again.
  unfoldable pub finished : ℕ → Result (Unit {0}) × S → Result (Unit {0}) × S
  finished ncid (ok u, s) = env.get_agg_info (env.nc_close ncid s)
  finished ncid (err e, s) = (err e, env.nc_close ncid s)
  finished ncid (fault, s) = (fault, s)

  -- NEW_NETCDF_ARCH_KW gives the start of a new archive.
  unfoldable pub arch_start :
      List ℕ → ℕ → Option ℕ → ℕ → NcInqOut → NcGenDimOut × NcGenVarOut → S → Result (Unit {0}) × S
  unfolding new_start arch_from finished
  arch_start agg_collection limit (some start) ncid inq dv s =
      finished ncid (arch_from agg_collection limit inq dv.0 (start, none) s)
  arch_start agg_collection limit none ncid inq dv s =
      or_close ncid (env.read_agg_info s) (λ files s1.
        or_close ncid (new_start ncid dv s1 files, s1)
          (λ start s2. finished ncid (arch_from agg_collection limit inq dv.0 start s2)))

  unfoldable pub arch_opened : List ℕ → ℕ → Option ℕ → ℕ → S → Result (Unit {0}) × S
  unfolding time_var arch_start
  arch_opened agg_collection limit new_arch ncid s = or_close ncid (env.nc_inq ncid s) (λ inq s1.
      or_close ncid (time_var inq, s1) (λ dv. arch_start agg_collection limit new_arch ncid inq dv))

  -- _rsNcArchTimeSeries
  unfoldable pub rs_nc_arch_time_series : List ℕ → ℕ → Option ℕ → S → Result (Unit {0}) × S
  unfolding arch_opened
  rs_nc_arch_time_series agg_collection limit new_arch s =
      chain (env.nc_open s) (arch_opened agg_collection limit new_arch)

  -- The same without any closing.
  unfoldable pub start_of :
      Option ℕ → ℕ → NcGenDimOut × NcGenVarOut → S → Result (ℕ × Option (List NcAggElement)) × S
  unfolding new_start
  start_of (some start) ncid dv s = (ok (start, none), s)
  start_of none ncid dv s =
      chain (env.read_agg_info s) (λ files s1. (new_start ncid dv s1 files, s1))

  unfoldable pub work : List ℕ → ℕ → Option ℕ → ℕ → S → Result (Unit {0}) × S
  unfolding time_var start_of arch_from
  work agg_collection limit new_arch ncid s = chain (env.nc_inq ncid s) (λ inq s1.
      chain (time_var inq, s1)
        (λ dv s2. chain (start_of new_arch ncid dv s2) (arch_from agg_collection limit inq dv.0)))

  -- The nc_close of a source before a result is given: a success goes on with the description.
  unfoldable pub closed_once : ℕ → Result (Unit {0}) × S → Result (Unit {0}) × S
  closed_once ncid (ok u, s) = env.get_agg_info (env.nc_close ncid s)
  closed_once ncid (err e, s) = (err e, env.nc_close ncid s)
  closed_once ncid (fault, s) = (fault, s)

  finished-closed_once :
      (ncid : ℕ) (r : Result (Unit {0}) × S) → finished ncid r ≡ closed_once ncid r
  unfolding finished closed_once
  finished-closed_once ncid (ok u, s) = refl
  finished-closed_once ncid (err e, s) = refl
  finished-closed_once ncid (fault, s) = refl

  or_close-finished :
      {A : Type 0} (ncid : ℕ) (r : Result A × S) (f g : A → S → Result (Unit {0}) × S)
      → ((a : A) (s : S) → f a s ≡ finished ncid (g a s))
      → or_close ncid r f ≡ finished ncid (chain r g)
  unfolding finished
  or_close-finished ncid (ok a, s) f g h = h a s
  or_close-finished ncid (err e, s) f g h = refl
  or_close-finished ncid (fault, s) f g h = refl

  arch_start-finished :
      (agg_collection : List ℕ) (limit : ℕ) (new_arch : Option ℕ) (ncid : ℕ) (inq : NcInqOut)
      (dv : NcGenDimOut × NcGenVarOut) (s : S)
      → arch_start agg_collection limit new_arch ncid inq dv s
        ≡ finished ncid
            (chain (start_of new_arch ncid dv s) (arch_from agg_collection limit inq dv.0))
  unfolding arch_start start_of
  arch_start-finished agg_collection limit (some start) ncid inq dv s = refl
  arch_start-finished agg_collection limit none ncid inq dv s = after_read (env.read_agg_info s)
    where
      after_read :
          (r : Result (List NcAggElement) × S)
          → or_close ncid r (λ files s1.
            or_close ncid
              (new_start ncid dv s1 files, s1)
              (λ start s2. finished ncid (arch_from agg_collection limit inq dv.0 start s2)))
            ≡ finished ncid (
                chain
                  (chain r (λ files s1. (new_start ncid dv s1 files, s1)))
                  (arch_from agg_collection limit inq dv.0))
      after_read (ok files, s1) =
          or_close-finished ncid (new_start ncid dv s1 files, s1) _ _ (λ start s2. refl)
      after_read (err e, s1) = unfold finished in refl
      after_read (fault, s1) = unfold finished in refl

  arch_opened-finished :
      (agg_collection : List ℕ) (limit : ℕ) (new_arch : Option ℕ) (ncid : ℕ) (s : S)
      → arch_opened agg_collection limit new_arch ncid s
        ≡ finished ncid (work agg_collection limit new_arch ncid s)
  unfolding arch_opened work
  arch_opened-finished agg_collection limit new_arch ncid s =
      or_close-finished ncid (env.nc_inq ncid s) _ _ (λ inq s1.
        or_close-finished ncid (time_var inq, s1) _ _
          (λ dv s2. arch_start-finished agg_collection limit new_arch ncid inq dv s2))

  -- However the work on an opened source ends, with one of the errors of the calls, of the time
  -- dimension or of the archive, or with success, but for what is undefined in C, the source is closed
  -- once after it, and the description is made again after a success only.
  pub rs_nc_arch_time_series-finished :
      (agg_collection : List ℕ) (limit : ℕ) (new_arch : Option ℕ) (s : S)
      → rs_nc_arch_time_series agg_collection limit new_arch s
        ≡ chain
            (env.nc_open s)
            (λ ncid s1. closed_once ncid (work agg_collection limit new_arch ncid s1))
  unfolding rs_nc_arch_time_series
  rs_nc_arch_time_series-finished agg_collection limit new_arch s = after_open (env.nc_open s)
    where
      after_open :
          (r : Result ℕ × S)
          → chain r (arch_opened agg_collection limit new_arch)
            ≡ chain r (λ ncid s1. closed_once ncid (work agg_collection limit new_arch ncid s1))
      after_open (ok ncid, s1) =
          arch_opened-finished agg_collection limit new_arch ncid s1
          ∙ finished-closed_once ncid (work agg_collection limit new_arch ncid s1)
      after_open (err e, s1) = refl
      after_open (fault, s1) = refl

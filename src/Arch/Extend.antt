-- ===== src/Arch/Extend.antt =====
-- An archive is extended by the new time steps: the search, the names and the files of
-- _rsNcArchTimeSeries (api/src/rsNcArchTimeSeries.cpp) together.
use irods_netcdf.Base.{ℕ, ◌+◌, ◌<◌, ◌≡◌, List, length}
use irods_netcdf.Status.{ok}
use irods_netcdf.Inq.{NcGenDimOut, NcGenVarOut}
use irods_netcdf.Agg.{NcAggElement}
use irods_netcdf.Arch.Start.{SplitsAt, ReadsPages}
use irods_netcdf.Arch.Server.{ArchEnv, last_end_time}

module _ {S V : Type 0} (env : ArchEnv S V) (ncid : ℕ) (dv : NcGenDimOut × NcGenVarOut) where
  -- An archive whose last file ends at `prev`, and a source of which the first n times are up to there and
  -- two or more are past it.
  pub record Extends (s s1 : S) (files : List NcAggElement) (prev n : ℕ) (times : List V)
      : Type 0 where
    pub read_info : env.read_agg_info s ≡ (ok files, s1)
    pub last_end : last_end_time files ≡ ok prev
    pub pages :
        ReadsPages env.as_int env.invalid_data_type dv.1.data_type prev
          (env.get_page s1 ncid dv.1)
          times
    pub splits : SplitsAt env.as_int env.invalid_data_type dv.1.data_type prev n times
    pub all_times : dv.0.array_len ≡ length times
    pub some_old : 0 < n
    pub two_new : n + 1 < length times

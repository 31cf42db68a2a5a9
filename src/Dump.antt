-- ===== src/Dump.antt =====
-- Writing a whole netCDF file: dumpNcInqOutToNcFile, ncFormatToCmode and closeAndRmNeFile of
-- api/lib/rcNcInq.cpp. The state is the list of the calls that were made, the last one first; what a call
-- returns depends on it and on the calls before it.
pub mod Closed
pub mod Part
pub mod PartClosed
pub mod Calls
use irods_netcdf.Base.{
  ℕ, zero, suc, ◌+◌, Bool, true, false, Option, none, some, List, [], ◌∷◌, ℤ, pos, ◌==◌,
  if◌then◌else◌, leb_ℤ, ◌&&◌, get_elem?, map,
}
use irods_netcdf.Status.{
  Result, ok, err, fault, Err, Code, code, code_minus, ◌>>=◌, deref, netcdf_create_err,
  netcdf_put_att_err, netcdf_def_dim_err, netcdf_def_var_err, netcdf_put_vars_err,
  user_null_input_err,
}
use irods_netcdf.NcType.{NcType}
use irods_netcdf.Inq.{NcGenDimOut, NcGenAttOut, NcGenVarOut, NcInqOut}
use irods_netcdf.Transfer.{LRange}

-- The modes of nc_create and the formats of an inquiry, of which other numbers are unknown.
pub data Cmode : Type 0 where
  nc_classic_model nc_64bit_offset nc_netcdf4 nc_netcdf4_classic_model : Cmode

-- ncFormatToCmode; with NETCDF4_API, the classic format is written as netCDF-4.
unfoldable pub nc_format_to_cmode : Bool → ℕ → Cmode
nc_format_to_cmode netcdf4_api format =
    if (format == 1)
    then (if netcdf4_api then nc_netcdf4 else nc_classic_model)
    else if (format == 2)
    then nc_64bit_offset
    else if (format == 3)
    then nc_netcdf4
    else if (format == 4)
    then nc_netcdf4_classic_model
    else nc_classic_model

-- The calls on the output file. A variable is given by its id in the file, `none` is NC_GLOBAL; a length
-- of `none` is NC_UNLIMITED; copy_var is getAndPutVarToFile.
pub data Call : Type 0 where
  nc_create : List ℕ → Cmode → Call
  nc_put_att : Option ℤ → NcGenAttOut → Call
  nc_def_dim : List ℕ → Option ℕ → Call
  nc_def_var : List ℕ → NcType → List ℤ → Call
  nc_enddef : Call
  copy_var : ℤ → NcType → List LRange → ℤ → Call
  nc_put_vars : ℤ → List LRange → Call
  nc_close : Call
  unlink : List ℕ → Call

-- An id, which nc_def_dim and nc_def_var set; or the status of an error, which copy_var returns as an
-- error of its own.
pub data Reply : Type 0 where
  done : ℤ → Reply
  failed : ℤ → Reply
  returned : Err → Reply

abbrev pub Run : Type 0 → Type 0
Run A = Result A × List Call

abbrev pub and_run : {A B : Type 0} → Run A → (A → List Call → Run B) → Run B
and_run (ok a, calls) next = next a calls
and_run (err e, calls) next = (err e, calls)
and_run (fault, calls) next = (fault, calls)

module _ (reply : Call → List Call → Reply) (out_file_name : List ℕ) where
  -- closeAndRmNeFile
  unfoldable pub close_and_rm : List Call → List Call
  close_and_rm calls = unlink out_file_name ∷ nc_close ∷ calls

  unfoldable pub checked : Code → Reply → List Call → Run ℤ
  unfolding close_and_rm
  checked c (done id) calls = (ok id, calls)
  checked c (failed status) calls = (err (code_minus c status), close_and_rm calls)
  checked c (returned e) calls = (err e, close_and_rm calls)

  -- A call on the file; where it fails, the file is closed and removed.
  unfoldable pub attempt : Code → Call → List Call → Run ℤ
  unfolding checked
  attempt c call calls = checked c (reply call calls) (call ∷ calls)

  -- The attributes of the file or of a variable.
  unfoldable pub put_atts : Option ℤ → List NcGenAttOut → List Call → Run (Unit {0})
  unfolding attempt
  put_atts varid [] calls = (ok tt, calls)
  put_atts varid (a ∷ atts) calls =
      and_run (attempt netcdf_put_att_err (nc_put_att varid a) calls) (λ _. put_atts varid atts)

  unfoldable pub put_atts_if : Bool → Option ℤ → List NcGenAttOut → List Call → Run (Unit {0})
  unfolding put_atts
  put_atts_if true varid atts calls = (ok tt, calls)
  put_atts_if false varid atts calls = put_atts varid atts calls

  -- The dimensions; their ids in the file are what `myint` keeps.
  unfoldable pub dim_len : ℤ → NcGenDimOut → Option ℕ
  dim_len unlimdimid d =
      if leb_ℤ unlimdimid d.id && leb_ℤ d.id unlimdimid then none else some d.array_len

  unfoldable pub def_dims : ℤ → List NcGenDimOut → List Call → Run (List ℤ)
  unfolding attempt dim_len
  def_dims unlimdimid [] calls = (ok [], calls)
  def_dims unlimdimid (d ∷ dims) calls =
      and_run (attempt netcdf_def_dim_err (nc_def_dim d.name (dim_len unlimdimid d)) calls)
        (λ id calls1.
          and_run (def_dims unlimdimid dims calls1) (λ ids calls2. (ok (id ∷ ids), calls2)))

  -- dimIdArray
  unfoldable pub dim_id_array : List ℤ → List ℕ → Result (List ℤ)
  dim_id_array ids [] = ok []
  dim_id_array ids (i ∷ is) =
      deref (get_elem? ids i) >>= λ id. dim_id_array ids is >>= λ rest. ok (id ∷ rest)

  -- A variable is defined and gets its attributes; its id in the file is kept.
  unfoldable pub def_var : Bool → List ℤ → NcGenVarOut → List Call → Run ℤ
  unfolding attempt dim_id_array put_atts_if
  def_var noattr ids v calls =
      and_run (dim_id_array ids v.dim_id, calls)
        (λ array calls1.
          and_run (attempt netcdf_def_var_err (nc_def_var v.name v.data_type array) calls1)
            (λ id calls2.
              and_run (put_atts_if noattr (some id) v.att calls2) (λ _ calls3. (ok id, calls3))))

  unfoldable pub def_vars : Bool → List ℤ → List NcGenVarOut → List Call → Run (List ℤ)
  unfolding def_var
  def_vars noattr ids [] calls = (ok [], calls)
  def_vars noattr ids (v ∷ vs) calls = and_run (def_var noattr ids v calls) (λ id calls1.
      and_run (def_vars noattr ids vs calls1) (λ rest calls2. (ok (id ∷ rest), calls2)))

  -- lstart, lcount and lstride: all of the variable.
  unfoldable pub whole_ranges : List NcGenDimOut → List ℕ → Result (List LRange)
  whole_ranges dims [] = ok []
  whole_ranges dims (i ∷ is) = deref (get_elem? dims i) >>= λ d. whole_ranges dims is >>= λ rest.
      ok (record { lstart = 0; lcount = d.array_len; lstride = 1 } ∷ rest)

  -- The values, variable by variable, with its id in the file.
  unfoldable pub copy_vars :
      List NcGenDimOut → List NcGenVarOut → List ℤ → List Call → Run (Unit {0})
  unfolding attempt whole_ranges
  copy_vars dims [] ids calls = (ok tt, calls)
  copy_vars dims (v ∷ vs) [] calls = (fault, calls)
  copy_vars dims (v ∷ vs) (id ∷ ids) calls =
      and_run (whole_ranges dims v.dim_id, calls)
        (λ ranges calls1.
          and_run (attempt netcdf_put_vars_err (copy_var v.id v.data_type ranges id) calls1)
            (λ _. copy_vars dims vs ids))

  -- The variables, if there are any, and the end.
  unfoldable pub dump_vars :
      Bool → List NcGenDimOut → List ℤ → List NcGenVarOut → List Call → Run (Unit {0})
  unfolding def_vars copy_vars
  dump_vars noattr dims ids [] calls = (ok tt, nc_close ∷ calls)
  dump_vars noattr dims ids (v ∷ vs) calls =
      and_run (def_vars noattr ids (v ∷ vs) calls) (λ var_ids calls1.
        and_run (copy_vars dims (v ∷ vs) var_ids (nc_enddef ∷ calls1))
          (λ _ calls2. (ok tt, nc_close ∷ calls2)))

  -- The dimensions; without them the source returns and leaves the file open.
  unfoldable pub dump_dims : Bool → NcInqOut → List NcGenDimOut → List Call → Run (Unit {0})
  unfolding def_dims dump_vars
  dump_dims noattr inq [] calls = (err (code user_null_input_err), calls)
  dump_dims noattr inq (d ∷ dims) calls =
      and_run (def_dims inq.unlimdimid (d ∷ dims) calls)
        (λ ids. dump_vars noattr (d ∷ dims) ids inq.var)

  unfoldable pub dump_created : Bool → NcInqOut → Reply → List Call → Run (Unit {0})
  unfolding put_atts_if dump_dims
  dump_created noattr inq (failed status) calls = (err (code_minus netcdf_create_err status), calls)
  dump_created noattr inq (returned e) calls = (err e, calls)
  dump_created noattr inq (done id) calls =
      and_run (put_atts_if noattr none inq.gatt calls) (λ _. dump_dims noattr inq inq.dim)

  -- dumpNcInqOutToNcFile
  unfoldable pub dump_nc_inq_out_to_nc_file : Bool → Bool → NcInqOut → Run (Unit {0})
  unfolding nc_format_to_cmode dump_created
  dump_nc_inq_out_to_nc_file netcdf4_api noattr inq =
      let create = nc_create out_file_name (nc_format_to_cmode netcdf4_api inq.format) in
      dump_created noattr inq (reply create []) (create ∷ [])

-- ===== src/Server/Answers.antt =====
-- What the clients of rsNcInqId, rsNcInqWithId, rsNcGetVarsByType and rsNcInq get, wherever the file is
-- (api/src/rsNcInqId.cpp, api/src/rsNcInqWithId.cpp, api/src/rsNcGetVarsByType.cpp, api/src/rsNcInq.cpp).
use irods_netcdf.Base.{
  List, inl, inr, ◌⊎◌, ℕ, ◌<◌, ◌≡◌, refl, ap, ◌∙◌, false, none, some, [], ℤ, pos,
}
use irods_netcdf.Status.{
  or_fail, err, ok, code, code_plus, netcdf_inq_id_err, netcdf_invalid_param_type, Result,
}
use irods_netcdf.Inq.{NcInqOut}
use irods_netcdf.Inq.Query.{NcLib, NcInqInp, nc_inq}
use irods_netcdf.Close.{is_coll}
use irods_netcdf.Server.{Node, get_l1desc, for_obj_of_zone, in_zone, coll_first}
use irods_netcdf.Server.Library.{
  ParamType, nc_var_t, nc_dim_t, no_type, NcInqIdInp, NcInqWithIdOut, inq_id, inq_with_id,
}
use irods_netcdf.Server.Entries.{
  inq_id_request, rs_nc_inq_id, inq_with_id_request, rs_nc_inq_with_id, inq_request, rs_nc_inq,
  rs_nc_inq_coll, rs_nc_inq_data_obj, GetVarReq, get_var_request, rs_nc_get_vars_by_type_entry,
}
use irods_netcdf.Server.Reach.{
  InZone, Abroad, file_of, Usable, Reaches, here, by_zone, ObjReaches, at_host, in_other_zone,
}
use irods_netcdf.Server.Runs.{
  coll_first_lem, zone_first-run, coll_first-run, get_l1desc_lem, for_data_obj-run,
  native_coll_first,
}
use irods_netcdf.Server.Kinds.{
  inq_id-InZone, inq_id-Abroad, inq_with_id-InZone, inq_with_id-Abroad, inq-InZone,
}

-- The answer of the library to nc_inq_varid or nc_inq_dimid, with its errors in the range of iRODS.
abbrev pub given : ℤ ⊎ ℤ → Result ℤ
given (inl status) = err (code_plus netcdf_inq_id_err status)
given (inr id) = ok id

abbrev pub id_given : NcLib → ParamType → List ℕ → Result ℤ
id_given lib nc_var_t name = given (lib.nc_inq_varid name)
id_given lib nc_dim_t name = given (lib.nc_inq_dimid name)
id_given lib (no_type n) name = err (code netcdf_invalid_param_type)

or_fail-given : (r : ℤ ⊎ ℤ) → or_fail netcdf_inq_id_err r ≡ given r
or_fail-given (inl status) = refl
or_fail-given (inr id) = refl

inq_id-id_given :
    (lib : NcLib) (inp : NcInqIdInp) → inq_id lib inp ≡ id_given lib inp.param_type inp.name
unfolding inq_id
inq_id-id_given lib inp = by_type inp.param_type refl
  where
    by_type :
        (t : ParamType) → inp.param_type ≡ t → inq_id lib inp ≡ id_given lib inp.param_type inp.name
    by_type nc_var_t e = rw e (or_fail-given (lib.nc_inq_varid inp.name))
    by_type nc_dim_t e = rw e (or_fail-given (lib.nc_inq_dimid inp.name))
    by_type (no_type n) e = rw e refl

by_objects :
    {Lib In Out : Type 0} {net : ℕ → Node Lib In Out} {k : ℕ} {n : ℤ} {lib : Lib}
    → ObjReaches net k n lib
    → Reaches net k n lib
by_objects (at_host u zone no_coll e) = here u zone no_coll e
by_objects (in_other_zone u zone no_coll r) = by_zone u zone no_coll (by_objects r)

-- In a network of servers where rcNcInqId calls rsNcInqId of the server it is connected to: a request that is
-- no native call, with a descriptor that leads to a data object, over servers and zones, gets the id that the netCDF library,
-- where it has the file open, gives for the variable or dimension of this name, or its error.
pub rs_nc_inq_id-answer :
    (net : ℕ → Node NcLib NcInqIdInp ℤ)
    → ((k c : ℕ) (inp : NcInqIdInp) → (net k).rc c inp ≡ rs_nc_inq_id (net c) inp)
    → {k : ℕ} {lib : NcLib} (inp : NcInqIdInp) → ObjReaches net k inp.ncid lib
    → inp.native ≡ false
    → rs_nc_inq_id (net k) inp ≡ id_given lib inp.param_type inp.name
unfolding rs_nc_inq_id
rs_nc_inq_id-answer net linked {k} {lib} inp r native =
    zone_first-run inq_id_request inq_id-InZone net inq_id-Abroad linked (by_objects r) inp native
      refl
    ∙ inq_id-id_given lib inp

-- The same for rsNcInqWithId: the name, type and length of what has this id in the file.
pub rs_nc_inq_with_id-answer :
    (net : ℕ → Node NcLib NcInqIdInp NcInqWithIdOut)
    → ((k c : ℕ) (inp : NcInqIdInp) → (net k).rc c inp ≡ rs_nc_inq_with_id (net c) inp)
    → {k : ℕ} {lib : NcLib} (inp : NcInqIdInp) → Reaches net k inp.ncid lib
    → inp.native ≡ false
    → rs_nc_inq_with_id (net k) inp ≡ inq_with_id lib inp
unfolding rs_nc_inq_with_id
rs_nc_inq_with_id-answer net linked inp r native =
    zone_first-run inq_with_id_request inq_with_id-InZone net inq_with_id-Abroad linked r inp native
      refl

module _ {Lib Out : Type 0} (get : Lib → GetVarReq → Result Out)
    (reads_var_inp : (lib : Lib) (a b : GetVarReq)
      → a.var_inp ≡ b.var_inp
      → get lib a ≡ get lib b) where
  get_var-InZone : InZone (get_var_request get)
  get_var-InZone = record {
    server_run = λ n lib inp. reads_var_inp lib _ _ refl;
    element_run = λ n lib inp. reads_var_inp lib _ _ refl;
    server_ncid = λ n inp. refl;
    element_ncid = λ n inp. refl;
    server_native = λ n inp. refl;
  }

  get_var-Abroad : Abroad (get_var_request get)
  get_var-Abroad = record {
    zone_run = λ n lib inp. reads_var_inp lib _ _ refl;
    zone_ncid = λ n inp. refl;
    zone_native = λ n inp e. e;
  }

  -- In a network where rcNcGetVarsByType calls rsNcGetVarsByType of the server it is connected to: a read
  -- with a descriptor that leads to a data object, over servers and zones, gets the values that are
  -- read on the server that has the file open, if that read depends on the variable and the ranges only.
  pub rs_nc_get_vars_by_type_entry-answer :
      (coll : Node Lib GetVarReq Out → GetVarReq → Result Out) (net : ℕ → Node Lib GetVarReq Out)
      → ((k c : ℕ) (inp : GetVarReq)
          → (net k).rc c inp ≡ rs_nc_get_vars_by_type_entry get coll (net c) inp)
      → {k : ℕ} {lib : Lib} (inp : GetVarReq) → ObjReaches net k inp.ncid lib
      → inp.native ≡ false
      → rs_nc_get_vars_by_type_entry get coll (net k) inp ≡ get lib inp
  unfolding rs_nc_get_vars_by_type_entry
  rs_nc_get_vars_by_type_entry-answer coll net linked inp r native =
      coll_first-run (get_var_request get) get_var-InZone net get_var-Abroad coll linked r inp
        native refl

module _ (net : ℕ → Node NcLib NcInqInp NcInqOut)
    (linked : (k c : ℕ) (inp : NcInqInp) → (net k).rc c inp ≡ rs_nc_inq (net c) inp) where
  obj_run :
      (k inx : ℕ) (lib : NcLib) (inp : NcInqInp)
      → inx < (net k).num_l1_desc
      → inp.ncid ≡ pos inx
      → ((net k).table inx).remote_zone ≡ none
      → file_of net k ((net k).table inx) ≡ some lib
      → rs_nc_inq_data_obj (net k) inp ≡ nc_inq lib inp
  unfolding rs_nc_inq_data_obj for_obj_of_zone in_zone rs_nc_inq
  obj_run k inx lib inp lt is_inx zone e =
      rw
        (ap (get_l1desc inq_request (net k)) is_inx
          ∙ get_l1desc_lem inq_request inq-InZone net k inx lt)
        (rw zone (
          for_data_obj-run inq_request inq-InZone net
            (λ node. coll_first inq_request node (rs_nc_inq_coll node))
            (native_coll_first inq_request inq-InZone net rs_nc_inq_coll) linked k inx lib inp lt
            is_inx e))

  obj_answer :
      {c n : ℕ} {lib : NcLib} (inp : NcInqInp)
      → Usable net c n
      → is_coll ((net c).table n).plugin_data ≡ false
      → ((net c).table n).remote_zone ≡ none
      → file_of net c ((net c).table n) ≡ some lib
      → inp.native ≡ false
      → inp.ncid ≡ pos n
      → rs_nc_inq (net c) inp ≡ nc_inq lib inp
  unfolding rs_nc_inq rs_nc_inq_data_obj
  obj_answer {c} {n} {lib} inp u no_coll zone e native is_n =
      coll_first_lem inq_request inq-InZone net c n (rs_nc_inq_coll (net c)) inp u native is_n
      ∙ rw no_coll (obj_run c n lib inp u.to_num is_n zone e)

  -- For an open data object of another zone, on a server of that zone that can locate it, where rcNcInq calls
  -- rsNcInq of the server it is connected to: rsNcInq gives what ncInq gives for a request for all items,
  -- without a name and with the flags 0, whatever items are asked for.
  pub rs_nc_inq-other_zone :
      {k inx c n : ℕ} {lib : NcLib} (inp : NcInqInp)
      → Usable net k inx
      → is_coll ((net k).table inx).plugin_data ≡ false
      → ((net k).table inx).remote_zone ≡ some (c, pos n)
      → Usable net c n
      → is_coll ((net c).table n).plugin_data ≡ false
      → ((net c).table n).remote_zone ≡ none
      → file_of net c ((net c).table n) ≡ some lib
      → inp.native ≡ false
      → inp.ncid ≡ pos inx
      → rs_nc_inq (net k) inp
        ≡ nc_inq lib (record {
          param_type = 0;
          ncid = pos n;
          myid = pos 0;
          flags = 0;
          name = [];
          native = false;
        })
  unfolding rs_nc_inq for_obj_of_zone in_zone
  rs_nc_inq-other_zone {k} {inx} {c} {n} {lib} inp u no_coll zone v no_coll2 zone2 e native is_inx =
      coll_first_lem inq_request inq-InZone net k inx (rs_nc_inq_coll (net k)) inp u native is_inx
      ∙ rw no_coll (
          rw
            (ap (get_l1desc inq_request (net k)) is_inx
              ∙ get_l1desc_lem inq_request inq-InZone net k inx u.to_num)
            (rw zone (
              linked k c (inq_request.to_zone (pos n) inp)
              ∙ obj_answer (inq_request.to_zone (pos n) inp) v no_coll2 zone2 e refl refl)))

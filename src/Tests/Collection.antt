-- ===== src/Tests/Collection.antt =====
-- The inquiry of a collection, and of an object of another zone, on the servers of Tests.Server.
use irods_netcdf.Base.{false, ℕ, ◌≡◌, refl, ap, ◌∙◌, some, [], pos, arith}
use irods_netcdf.Status.{Result, ◌>>=◌, >>=_cong}
use irods_netcdf.Inq.{NcInqOut}
use irods_netcdf.Inq.Query.{NcLib, NcInqInp, nc_inq}
use irods_netcdf.Close.{is_coll, OpenedAggInfo, L1Desc, Host, local_host, remote_host, other_opr}
use irods_netcdf.Server.{
  Request, Node, for_element, for_coll, get_l1desc, in_use, checked_desc, on_desc, for_data_obj,
  in_zone, coll_or_obj, for_obj_of_zone, zone_first, coll_first,
}
use irods_netcdf.Server.Entries.{
  rs_nc_inq, rs_nc_inq_data_obj, rs_nc_inq_coll, correct_time, files_of, inq_request,
}
use irods_netcdf.Server.Answers.{rs_nc_inq-other_zone}
use irods_netcdf.Tests.Inq.{lib, everything}
use irods_netcdf.Tests.Server.{
  plain, server, net, linked, get_eq, for_obj_eq, for_data_obj_eq, coll_first_eq,
}

abbrev zone_desc : L1Desc
zone_desc = record plain { remote_zone = some (1, pos 3) }

module _ (d : L1Desc) (host : Host) (rc rc2 : ℕ → NcInqInp → Result NcInqOut) where
  obj_eq :
      ((inp : NcInqInp)
        → in_zone inq_request
            (server lib d host rc)
            d.remote_zone
            inp
            (for_data_obj inq_request (server lib d host rc))
          ≡ in_zone inq_request
              (server lib d host rc2)
              d.remote_zone
              inp
              (for_data_obj inq_request (server lib d host rc2)))
      → (inp : NcInqInp)
      → rs_nc_inq_data_obj (server lib d host rc) inp
        ≡ rs_nc_inq_data_obj (server lib d host rc2) inp
  unfolding rs_nc_inq_data_obj
  obj_eq e inp = for_obj_eq inq_request lib d host rc rc2 inp (e inp)

  coll_eq :
      ((inp : NcInqInp)
        → for_element inq_request
            (server lib d host rc)
            d.plugin_data
            (rs_nc_inq_data_obj (server lib d host rc))
            inp
          ≡ for_element inq_request
              (server lib d host rc2)
              d.plugin_data
              (rs_nc_inq_data_obj (server lib d host rc2))
              inp)
      → (inp : NcInqInp)
      → rs_nc_inq_coll (server lib d host rc) inp ≡ rs_nc_inq_coll (server lib d host rc2) inp
  unfolding rs_nc_inq_coll for_coll
  coll_eq e inp =
      ap
        (λ (r : Result NcInqOut). r >>= λ out.
          get_l1desc inq_request (server lib d host rc) inp.ncid >>= λ d2.
          correct_time (files_of d2.plugin_data) out)
        (get_eq inq_request lib d host rc rc2 inp.ncid
          (λ d2.
            for_element inq_request (server lib d host rc) d2.plugin_data
              (rs_nc_inq_data_obj (server lib d host rc)) inp)
          (λ d2.
            for_element inq_request (server lib d host rc2) d2.plugin_data
              (rs_nc_inq_data_obj (server lib d host rc2)) inp)
          (e inp))
      ∙ >>=_cong
          (for_coll inq_request (server lib d host rc2) (rs_nc_inq_data_obj (server lib d host rc2))
            inp)
          (λ out.
            get_eq inq_request lib d host rc rc2 inp.ncid
              (λ d2. correct_time (files_of d2.plugin_data) out)
              (λ d2. correct_time (files_of d2.plugin_data) out) refl)

  inq_eq :
      ((inp : NcInqInp)
        → in_zone inq_request
            (server lib d host rc)
            d.remote_zone
            inp
            (for_data_obj inq_request (server lib d host rc))
          ≡ in_zone inq_request
              (server lib d host rc2)
              d.remote_zone
              inp
              (for_data_obj inq_request (server lib d host rc2)))
      → ((inp : NcInqInp)
          → for_element inq_request
              (server lib d host rc)
              d.plugin_data
              (rs_nc_inq_data_obj (server lib d host rc))
              inp
            ≡ for_element inq_request
                (server lib d host rc2)
                d.plugin_data
                (rs_nc_inq_data_obj (server lib d host rc2))
                inp)
      → (inp : NcInqInp)
      → rs_nc_inq (server lib d host rc) inp ≡ rs_nc_inq (server lib d host rc2) inp
  unfolding rs_nc_inq rs_nc_inq_data_obj
  inq_eq e f inp =
      coll_first_eq inq_request lib d host rc rc2 (rs_nc_inq_coll (server lib d host rc))
        (rs_nc_inq_coll (server lib d host rc2)) inp (coll_eq f inp) (obj_eq e inp)

plain_eq :
    (rc rc2 : ℕ → NcInqInp → Result NcInqOut) (inp : NcInqInp)
    → rs_nc_inq (server lib plain local_host rc) inp
      ≡ rs_nc_inq (server lib plain local_host rc2) inp
unfolding in_zone on_desc irods_netcdf.Server.on_host for_element
plain_eq rc rc2 =
    inq_eq plain local_host rc rc2
      (λ inp. for_data_obj_eq inq_request lib plain local_host rc rc2 inp refl) (λ inp. refl)

abbrev ask : NcInqInp
ask = record everything { ncid = pos 2 }

abbrev zone_net : ℕ → Node NcLib NcInqInp NcInqOut
zone_net = net lib rs_nc_inq zone_desc local_host

zone_desc_eq :
    (rc rc2 : ℕ → NcInqInp → Result NcInqOut)
    → ((inp : NcInqInp) → rc 1 inp ≡ rc2 1 inp)
    → (inp : NcInqInp)
    → rs_nc_inq (server lib zone_desc local_host rc) inp
      ≡ rs_nc_inq (server lib zone_desc local_host rc2) inp
unfolding in_zone for_element
zone_desc_eq rc rc2 same =
    inq_eq zone_desc local_host rc rc2 (λ inp. same (inq_request.to_zone (pos 3) inp)) (λ inp. refl)

zone_linked : (k c : ℕ) (inp : NcInqInp) → (zone_net k).rc c inp ≡ rs_nc_inq (zone_net c) inp
zone_linked =
    linked lib rs_nc_inq zone_desc local_host plain_eq (λ inp. zone_desc_eq _ _ (λ i. refl) inp)

-- One dimension is asked for.
rs_nc_inq-other_zone_example :
    rs_nc_inq (zone_net 0) (record ask { param_type = 2 })
    ≡ nc_inq lib (record {
      param_type = 0;
      ncid = pos 3;
      myid = pos 0;
      flags = 0;
      name = [];
      native = false;
    })
unfolding irods_netcdf.Close.is_coll
rs_nc_inq-other_zone_example =
    rs_nc_inq-other_zone zone_net zone_linked {k = 0} {inx = 2} {c = 1} {n = 3} {lib = lib}
      (record ask { param_type = 2 })
      (record { from_two = omega arith; to_num = omega arith; inuse = refl }) refl refl
      (record { from_two = omega arith; to_num = omega arith; inuse = refl }) refl refl refl refl
      refl

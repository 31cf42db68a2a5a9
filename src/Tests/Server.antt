-- ===== src/Tests/Server.antt =====
-- Two servers: server 0, from which requests are sent on, and the others, which have the file.
use irods_netcdf.Base.{
  ℕ, zero, suc, ◌≡◌, refl, Bool, true, false, none, [], ℤ, pos, negsuc, codes, arith, Bool-cases,
  inl, inr, ltb, leb, ◌||◌, if◌then◌else◌,
}
use irods_netcdf.Status.{Result, ok, err, foreign, code, bad_input_desc_index, ◌>>=◌}
use irods_netcdf.Inq.Query.{NcLib}
use irods_netcdf.NcType.{nc_int}
use irods_netcdf.Close.{is_coll, OpenedAggInfo, L1Desc, Host, local_host, remote_host, other_opr}
use irods_netcdf.Server.{
  Request, Node, get_l1desc, in_use, checked_desc, on_desc, for_data_obj, in_zone, coll_or_obj,
  for_obj_of_zone, zone_first, coll_first,
}
use irods_netcdf.Server.Library.{NcInqIdInp, nc_var_t}
use irods_netcdf.Server.Entries.{
  inq_id_request, get_var_request, rs_nc_inq_id, GetVarReq, rs_nc_get_vars_by_type_entry,
}
use irods_netcdf.Server.Reach.{at_host}
use irods_netcdf.Server.Answers.{id_given, rs_nc_inq_id-answer, rs_nc_get_vars_by_type_entry-answer}
use irods_netcdf.Tests.Inq.{lib}

abbrev pub plain : L1Desc
plain = record {
  inuse = true;
  opr_type = other_opr;
  remote_zone = none;
  file_path = [];
  l3desc_inx = pos 65536;
  plugin_data = none;
}

-- A server with the same descriptor everywhere.
abbrev pub server :
    {Lib In Out : Type 0} → Lib → L1Desc → Host → (ℕ → In → Result Out) → Node Lib In Out
server a_lib d host rc = record {
  libs = λ ncid. a_lib;
  table = λ inx. d;
  num_l1_desc = 1026;
  host_of = λ d. host;
  rc = rc;
  privileged = true;
}

module _ {Lib In Out : Type 0} (a_lib : Lib) (entry : Node Lib In Out → In → Result Out)
    (d : L1Desc) (host : Host) where
  abbrev no_calls : ℕ → In → Result Out
  no_calls c inp = err (foreign (negsuc 0))

  abbrev leaf_calls : ℕ → In → Result Out
  leaf_calls c inp = entry (server a_lib plain local_host no_calls) inp

  abbrev calls : ℕ → In → Result Out
  calls zero inp = entry (server a_lib d host leaf_calls) inp
  calls (suc c) inp = entry (server a_lib plain local_host no_calls) inp

  abbrev pub net : ℕ → Node Lib In Out
  net zero = server a_lib d host calls
  net (suc k) = server a_lib plain local_host calls

  pub linked :
      ((rc rc2 : ℕ → In → Result Out) (inp : In)
        → entry (server a_lib plain local_host rc) inp
          ≡ entry (server a_lib plain local_host rc2) inp)
      → ((inp : In)
          → entry (server a_lib d host leaf_calls) inp ≡ entry (server a_lib d host calls) inp)
      → (k c : ℕ) (inp : In) → (net k).rc c inp ≡ entry (net c) inp
  linked leaf first zero zero inp = first inp
  linked leaf first zero (suc c) inp = leaf no_calls calls inp
  linked leaf first (suc k) zero inp = first inp
  linked leaf first (suc k) (suc c) inp = leaf no_calls calls inp

-- Such a server answers alike, whatever rc is where it is not called.
module _ {Lib In Out : Type 0} (req : Request Lib In Out) (a_lib : Lib) (d : L1Desc) (host : Host)
    (rc rc2 : ℕ → In → Result Out) where
  abbrev one_node : Node Lib In Out
  one_node = server a_lib d host rc

  abbrev other_node : Node Lib In Out
  other_node = server a_lib d host rc2

  bool_eq :
      (b : Bool) (f g : L1Desc → Result Out)
      → f d ≡ g d
      → ((if b then ok d else err (code bad_input_desc_index)) >>= f)
        ≡ ((if b then ok d else err (code bad_input_desc_index)) >>= g)
  bool_eq true f g e = e
  bool_eq false f g e = refl

  in_use_eq :
      (f g : L1Desc → Result Out)
      → f d ≡ g d
      → (in_use req one_node d >>= f) ≡ (in_use req other_node d >>= g)
  unfolding in_use
  in_use_eq f g e = bool_eq d.inuse f g e

  checked_eq :
      (n : ℤ) (f g : L1Desc → Result Out)
      → f d ≡ g d
      → (checked_desc req one_node n >>= f) ≡ (checked_desc req other_node n >>= g)
  unfolding checked_desc
  checked_eq (negsuc n) f g e = refl
  checked_eq (pos inx) f g e = elim (Bool-cases (ltb inx 2 || leb 1026 inx)) [
    | inl h ↦ rw h refl
    | inr h ↦ rw h (in_use_eq f g e)
  ]

  pub get_eq :
      (n : ℤ) (f g : L1Desc → Result Out)
      → f d ≡ g d
      → (get_l1desc req one_node n >>= f) ≡ (get_l1desc req other_node n >>= g)
  unfolding get_l1desc
  get_eq (negsuc n) f g e = refl
  get_eq (pos inx) f g e = elim (Bool-cases (leb 1026 inx)) [ inl h ↦ rw h refl | inr h ↦ rw h e ]

  zone_first_eq :
      (inp : In)
      → in_zone req one_node d.remote_zone inp (coll_or_obj req one_node d)
        ≡ in_zone req other_node d.remote_zone inp (coll_or_obj req other_node d)
      → zone_first req one_node inp ≡ zone_first req other_node inp
  unfolding zone_first
  zone_first_eq inp e = elim (Bool-cases (req.native inp)) [
    | inl h ↦ rw h refl
    | inr h ↦ rw h (
        checked_eq (req.ncid inp)
          (λ d. in_zone req one_node d.remote_zone inp (coll_or_obj req one_node d))
          (λ d. in_zone req other_node d.remote_zone inp (coll_or_obj req other_node d)) e)
  ]

  pub for_obj_eq :
      (inp : In)
      → in_zone req one_node d.remote_zone inp (for_data_obj req one_node)
        ≡ in_zone req other_node d.remote_zone inp (for_data_obj req other_node)
      → for_obj_of_zone req one_node inp ≡ for_obj_of_zone req other_node inp
  unfolding for_obj_of_zone
  for_obj_eq inp e =
      get_eq (req.ncid inp)
        (λ d. in_zone req one_node d.remote_zone inp (for_data_obj req one_node))
        (λ d. in_zone req other_node d.remote_zone inp (for_data_obj req other_node)) e

  pub for_data_obj_eq :
      (inp : In)
      → on_desc req one_node d inp ≡ on_desc req other_node d inp
      → for_data_obj req one_node inp ≡ for_data_obj req other_node inp
  unfolding for_data_obj
  for_data_obj_eq inp e =
      get_eq (req.ncid inp) (λ d. on_desc req one_node d inp) (λ d. on_desc req other_node d inp) e

  pub coll_first_eq :
      (coll coll2 : In → Result Out) (inp : In)
      → coll inp ≡ coll2 inp
      → for_obj_of_zone req one_node inp ≡ for_obj_of_zone req other_node inp
      → coll_first req one_node coll inp ≡ coll_first req other_node coll2 inp
  unfolding coll_first
  coll_first_eq coll coll2 inp same e = elim (Bool-cases (req.native inp)) [
    | inl h ↦ rw h refl
    | inr h ↦ rw h (
        checked_eq (req.ncid inp)
          (λ d. if is_coll d.plugin_data then coll inp else for_obj_of_zone req one_node inp)
          (λ d. if is_coll d.plugin_data then coll2 inp else for_obj_of_zone req other_node inp)
          (rw same (rw e refl)))
  ]

abbrev the_depth : NcInqIdInp
the_depth = record {
  param_type = nc_var_t;
  ncid = pos 2;
  myid = pos 0;
  name = codes "depth";
  native = false;
}

abbrev inq_id_net : ℕ → Node NcLib NcInqIdInp ℤ
inq_id_net = net lib rs_nc_inq_id plain (remote_host 1)

inq_id_eq :
    (host : Host) (rc rc2 : ℕ → NcInqIdInp → Result ℤ) (inp : NcInqIdInp)
    → on_desc inq_id_request (server lib plain host rc) plain inp
      ≡ on_desc inq_id_request (server lib plain host rc2) plain inp
    → rs_nc_inq_id (server lib plain host rc) inp ≡ rs_nc_inq_id (server lib plain host rc2) inp
unfolding rs_nc_inq_id in_zone coll_or_obj is_coll
inq_id_eq host rc rc2 inp e =
    zone_first_eq inq_id_request lib plain host rc rc2 inp
      (for_data_obj_eq inq_id_request lib plain host rc rc2 inp e)

inq_id_linked :
    (k c : ℕ) (inp : NcInqIdInp) → (inq_id_net k).rc c inp ≡ rs_nc_inq_id (inq_id_net c) inp
unfolding on_desc
inq_id_linked =
    linked lib rs_nc_inq_id plain (remote_host 1)
      (λ rc rc2 inp. inq_id_eq local_host rc rc2 inp refl)
      (λ inp. inq_id_eq (remote_host 1) _ _ inp refl)

rs_nc_inq_id-answer_example :
    rs_nc_inq_id (inq_id_net 0) the_depth ≡ id_given lib nc_var_t (codes "depth")
unfolding irods_netcdf.Close.is_coll
rs_nc_inq_id-answer_example =
    rs_nc_inq_id-answer inq_id_net inq_id_linked {k = 0} {lib = lib} the_depth
      (at_host (record { from_two = omega arith; to_num = omega arith; inuse = refl }) refl refl
        refl)
      refl

abbrev get_something : NcLib → GetVarReq → Result ℕ
get_something l inp = ok 5

abbrev no_coll_read : Node NcLib GetVarReq ℕ → GetVarReq → Result ℕ
no_coll_read node inp = ok 0

abbrev read_entry : Node NcLib GetVarReq ℕ → GetVarReq → Result ℕ
read_entry = rs_nc_get_vars_by_type_entry get_something no_coll_read

abbrev read_net : ℕ → Node NcLib GetVarReq ℕ
read_net = net lib read_entry plain (remote_host 1)

read_eq :
    (host : Host) (rc rc2 : ℕ → GetVarReq → Result ℕ) (inp : GetVarReq)
    → on_desc (get_var_request get_something) (server lib plain host rc) plain inp
      ≡ on_desc (get_var_request get_something) (server lib plain host rc2) plain inp
    → read_entry (server lib plain host rc) inp ≡ read_entry (server lib plain host rc2) inp
unfolding rs_nc_get_vars_by_type_entry in_zone
read_eq host rc rc2 inp e =
    coll_first_eq (get_var_request get_something) lib plain host rc rc2
      (no_coll_read (server lib plain host rc)) (no_coll_read (server lib plain host rc2)) inp refl
      (for_obj_eq (get_var_request get_something) lib plain host rc rc2 inp
        (for_data_obj_eq (get_var_request get_something) lib plain host rc rc2 inp e))

read_linked : (k c : ℕ) (inp : GetVarReq) → (read_net k).rc c inp ≡ read_entry (read_net c) inp
unfolding on_desc
read_linked =
    linked lib read_entry plain (remote_host 1) (λ rc rc2 inp. read_eq local_host rc rc2 inp refl)
      (λ inp. read_eq (remote_host 1) _ _ inp refl)

abbrev the_read : GetVarReq
the_read = record {
  ncid = pos 2;
  native = false;
  var_inp = record { data_type = nc_int; ncid = 2; varid = pos 1; dims = [] };
}

rs_nc_get_vars_by_type_entry-answer_example : read_entry (read_net 0) the_read ≡ ok 5
unfolding irods_netcdf.Close.is_coll
rs_nc_get_vars_by_type_entry-answer_example =
    rs_nc_get_vars_by_type_entry-answer get_something (λ l a b e. refl) no_coll_read read_net
      read_linked {k = 0} {lib = lib} the_read
      (at_host (record { from_two = omega arith; to_num = omega arith; inuse = refl }) refl refl
        refl)
      refl

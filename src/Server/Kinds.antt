-- ===== src/Server/Kinds.antt =====
-- The requests of Server.Entries that are sent on ask for the same (Server.Reach).
use irods_netcdf.Base.{refl}
use irods_netcdf.Server.Library.{inq_id, inq_with_id}
use irods_netcdf.Inq.Query.{nc_inq}
use irods_netcdf.Server.Entries.{inq_id_request, inq_with_id_request, inq_request}
use irods_netcdf.Server.Reach.{InZone, Abroad}

pub inq_id-InZone : InZone inq_id_request
unfolding inq_id
inq_id-InZone = record {
  server_run = λ n lib inp. refl;
  element_run = λ n lib inp. refl;
  server_ncid = λ n inp. refl;
  element_ncid = λ n inp. refl;
  server_native = λ n inp. refl;
}

pub inq_id-Abroad : Abroad inq_id_request
unfolding inq_id
inq_id-Abroad = record {
  zone_run = λ n lib inp. refl;
  zone_ncid = λ n inp. refl;
  zone_native = λ n inp e. refl;
}

pub inq_with_id-InZone : InZone inq_with_id_request
unfolding inq_with_id
inq_with_id-InZone = record {
  server_run = λ n lib inp. refl;
  element_run = λ n lib inp. refl;
  server_ncid = λ n inp. refl;
  element_ncid = λ n inp. refl;
  server_native = λ n inp. refl;
}

pub inq_with_id-Abroad : Abroad inq_with_id_request
unfolding inq_with_id
inq_with_id-Abroad = record {
  zone_run = λ n lib inp. refl;
  zone_ncid = λ n inp. refl;
  zone_native = λ n inp e. refl;
}

pub inq-InZone : InZone inq_request
unfolding nc_inq
inq-InZone = record {
  server_run = λ n lib inp. refl;
  element_run = λ n lib inp. refl;
  server_ncid = λ n inp. refl;
  element_ncid = λ n inp. refl;
  server_native = λ n inp. refl;
}

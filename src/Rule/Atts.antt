-- ===== src/Rule/Atts.antt =====
-- The attribute that msiNcGetAttValStrInInqOut (microservices/netcdf/src) takes the value of, by its position or
-- its name.
use irods_netcdf.Base.{
  ℕ, zero, suc, ◌+◌, Option, none, some, List, if◌then◌else◌, length, get_elem?, strcmp_eq,
}
use irods_netcdf.Status.{Result, ok, err, code, ◌>>=◌, deref, user_param_type_err}
use irods_netcdf.Inq.{NcGenAttOut}
use irods_netcdf.Subset.{find_var}
use irods_netcdf.Rule.{
  MsParam, str_ms_t, int_ms_t, both, given, as_inq_out, as_str, at_inx, matched, null_name,
}

-- The loop over the attributes with `r` the rounds left, so the bound is j + r.
unfoldable pub att_loop : ℕ → ℕ → List ℕ → List NcGenAttOut → Result (Option NcGenAttOut)
att_loop zero j name atts = ok none
att_loop (suc r) j name atts =
    let rest = att_loop r (j + 1) name atts in
    deref (get_elem? atts j) >>= λ a. if strcmp_eq name a.name then ok (some a) else rest

-- attName or inx, and the error of another type.
unfoldable pub att_of : ℕ → MsParam → List NcGenAttOut → Result NcGenAttOut
unfolding att_loop at_inx matched
att_of bound (int_ms_t inx) atts = at_inx inx atts
att_of bound (str_ms_t name) atts = att_loop bound 0 name atts >>= λ found. matched found
att_of bound _ atts = err (code user_param_type_err)

unfoldable pub is_which : MsParam → Result (Unit {0})
is_which (int_ms_t inx) = ok tt
is_which (str_ms_t name) = ok tt
is_which _ = err (code user_param_type_err)

-- _msiNcGetAttValInInqOut: by name, the bound of the loop is the number of the attributes of the file, for
-- a variable too.
unfoldable pub msi_nc_get_att_val_in_inq_out :
    Option MsParam → Option MsParam → Option MsParam → Result NcGenAttOut
unfolding both given as_inq_out as_str is_which att_of matched find_var
msi_nc_get_att_val_in_inq_out inq_out which_att var_name = both inq_out which_att >>= λ ps.
    as_inq_out ps.0 >>= λ inq. is_which ps.1 >>= λ u. given var_name >>= λ p. as_str p >>= λ name.
    if strcmp_eq name null_name
    then att_of (length inq.gatt) ps.1 inq.gatt
    else (matched (find_var name inq.var) >>= λ v. att_of (length inq.gatt) ps.1 v.att)

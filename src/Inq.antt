-- ===== src/Inq.antt =====
-- What an inquiry returns (api/include/ncInq.hpp). The arrays are lists, with ndims, nvars, ngatts, natts
-- and nvdims for their lengths.
pub mod Query
pub mod File
pub mod Whole
pub mod Single
use irods_netcdf.Base.{ℕ, List, ℤ}
use irods_netcdf.NcType.{NcType}

-- ncGenDimOut_t
pub record NcGenDimOut : Type 0 where
  pub array_len : ℕ
  pub id : ℤ
  pub myint : ℤ
  pub name : List ℕ

-- ncGenAttOut_t; the value is the bytes of its array.
pub record NcGenAttOut : Type 0 where
  pub data_type : NcType
  pub id : ℤ
  pub length : ℕ
  pub name : List ℕ
  pub value : List ℕ

-- ncGenVarOut_t
pub record NcGenVarOut : Type 0 where
  pub data_type : NcType
  pub id : ℤ
  pub myint : ℤ
  pub name : List ℕ
  pub att : List NcGenAttOut
  pub dim_id : List ℕ

-- ncInqOut_t
pub record NcInqOut : Type 0 where
  pub unlimdimid : ℤ
  pub format : ℕ
  pub dim : List NcGenDimOut
  pub var : List NcGenVarOut
  pub gatt : List NcGenAttOut

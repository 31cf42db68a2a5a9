-- ===== src/Dict.antt =====
-- api/lib/ooiCi.cpp: dictionaries and arrays of typed values, and their JSON.
pub mod Entries
pub mod Attr
pub mod Cells
pub mod Lookup
pub mod Holds
pub mod Parts
pub mod Represents
pub mod Refines
pub mod Json
pub mod Packed
pub mod Last
pub mod Service
pub mod Array

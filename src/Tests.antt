-- ===== src/Tests.antt =====
-- The theorems at concrete inputs, and runs of the definitions.
mod Agg
mod Arch
mod Arrays
mod Calls
mod Close
mod Coll
mod Dump
mod Element
mod Extend
mod Group
mod Inq
mod Inquire
mod Ncattr
mod Open
mod Oper
mod Parse
mod Rule
mod Server
mod Service
mod Dict
mod Subset
mod Transfer
mod Vars
mod Collection

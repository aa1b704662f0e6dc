-- ===== src/Api.antt =====
-- nifat32.c, the functions that a host calls.
pub mod Defs
pub mod Chains
pub mod Reading
pub mod Writing
pub mod Paths
pub mod Opening
pub mod Contents
pub mod Copies
pub mod Repairs

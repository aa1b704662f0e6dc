-- ===== src/Tests.antt =====
-- Concrete runs of the modelled code on a device that keeps its sectors in memory.
pub mod Device
mod Calls
mod Tables
mod Storage
mod Hash
mod Recovery
mod Texts
mod Allocation
mod Contents
mod Directory
mod Trees
mod Boots
mod Volumes

-- ===== src/Mapping.antt =====
-- Mappings (runtime/mapping.c): fields in order of insertion, and a hash table of their indices with
-- open addressing, probed backwards.
pub mod Table
pub mod Methods
pub mod Slots
pub mod Lookup
pub mod Valid
pub mod Push
pub mod Members
pub mod Fresh
pub mod Construct
pub mod Fields
pub mod Rebuild
pub mod Growing
pub mod Spec
pub mod Store
pub mod Overrun

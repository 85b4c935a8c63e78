-- ===== src/Rope/Sound.antt =====
-- The operations of tree.go keep the order of the registry.
pub mod Insert
pub mod Delete
pub mod Mark

-- ===== src/Rope.antt =====
-- The operations of tree.go on the registry.
pub mod Search
pub mod Split
pub mod Insert
pub mod Delete
pub mod Balance
pub mod Persistence
pub mod Build
pub mod Mark
pub mod Sound
pub mod Read

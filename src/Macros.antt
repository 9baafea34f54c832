-- ===== src/Macros.antt =====
-- The procedural macros of macros/src.
pub mod Syntax
pub mod Parts
pub mod Shared
pub mod Agrees
pub mod Visit
pub mod Utils
pub mod Respan
pub mod Sync
pub mod DynTrait
pub mod DynObject
pub mod Composition
pub mod Meaning
pub mod Dispatch
pub mod Entry
pub mod DynCall

-- ===== src/Storage.antt =====
-- src/storage.rs: the trait `Storage` and its three implementations.
mod Trait
pub mod Raw
pub mod Box
pub mod RawOrBox
pub mod Default
pub mod Frame
pub use Trait.{Storage, FromBox, as_pinned_mut, IsPlace, IsFresh, IsStorage, IsFromBox}
unfoldable pub use Trait.{deref_as, default_as_ref, default_as_mut}

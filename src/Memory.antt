-- ===== src/Memory.antt =====
-- What the crate uses of the language's memory: bytes that may be uninitialised, layouts, the heap
-- of the global allocator, pointers, and typed reads and writes.
mod Contents
mod Allocation
mod Access
mod Laws
mod Boxes
pub mod Returns
pub use Contents.{
  Bytes, Cells, uninit, init_cells, write_cells_lem, read-init_cells, length-init_cells,
}
pub use Allocation.{RustType, align_of, Layout, layout_of, Block, Event, dropped, Heap}
pub use Allocation.{
  Fault, undefined_behaviour, panicked, build_error, Outcome, ok, fault, Exec, pure, raise,
}
pub use Allocation.{◌>>=◌, ◌>>◌, and_then, Allocator, log_event, free_block}
pub use Allocation.{
  without-head, find-head, find-replace, without-replace, find-without, without_comm,
}
unfoldable pub use Allocation.{find, without, replace, box_new, dealloc}
unfoldable pub use Contents.{read_cells, write_cells}
pub use Access.{Ptr, inline_at, block_at, address, Place, nowhere, cells_at}
unfoldable pub use Access.{load, store, read_ref, write_ref, unbox, store_cells}
pub use Laws.*
pub use Boxes.*

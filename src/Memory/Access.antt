-- ===== src/Memory/Access.antt =====
-- Pointers, and typed reads and writes through them.
use mathlib.Core.Option
use dyn_utils.Prelude.{ℕ, ◌%◌, Bool, Option, none, some, [], ◌==◌, ◌&&◌, not, if◌then◌else◌}
use dyn_utils.Memory.Contents.{Bytes, Cells, read_cells, write_cells}
use dyn_utils.Memory.Allocation.{
  RustType, align_of, layout_of, find, replace, Heap, undefined_behaviour, ok, fault, Exec, dealloc,
  ◌>>=◌, ◌>>◌, pure,
}

-- A pointer with its provenance: into the storage that it was taken from, or to a heap block.
pub data Ptr : Type 0 where
  inline_at : ℕ → Ptr
  block_at : ℕ → Ptr

abbrev pub address : Ptr → ℕ
address (inline_at a) = a
address (block_at a) = a

-- The memory of a value that is borrowed where it lies: the address of its data, and its cells.
pub record Place : Type 0 where
  pub at : ℕ
  pub cells : Cells

abbrev pub nowhere : Place
nowhere = record { at = 0; cells = [] }

-- The cells that a pointer leads to. An inline pointer dies when its storage moves.
abbrev pub cells_at : Place → Ptr → Heap → Option Cells
cells_at place (inline_at a) h = if a == place.at then some place.cells else none
cells_at place (block_at a) h = Option.map (λ b. b.cells) (find a h.blocks)

-- A pointer to a `T` must not be null and must be aligned.
abbrev pub is_valid_for : RustType → Ptr → Bool
is_valid_for T p = not (address p == 0) && (address p % align_of T) == 0

unfoldable pub load : RustType → Place → Ptr → Heap → Option Bytes
load T place p h =
    if is_valid_for T p
    then (if T.size == 0
        then some []
        else elim (cells_at place p h) [ none ↦ none | some cells ↦ read_cells T.size cells ])
    else none

-- A write gives the new cells of the place and the new heap.
unfoldable pub store_cells : Place → Ptr → Bytes → Heap → Option (Cells × Heap)
store_cells place (inline_at a) v h =
    if a == place.at then Option.map (λ c. (c, h)) (write_cells v place.cells) else none
store_cells place (block_at a) v h = elim (find a h.blocks) [
  | none ↦ none
  | some b ↦
      Option.map (λ c. (place.cells, record h { blocks = replace a c h.blocks }))
        (write_cells v b.cells)
]

unfoldable pub store : RustType → Place → Ptr → Bytes → Heap → Option (Cells × Heap)
unfolding store_cells
store T place p v h =
    if is_valid_for T p
    then (if T.size == 0 then some (place.cells, h) else store_cells place p v h)
    else none

-- `ptr::read`, and a read through `&T`: undefined if there is no `T` to read.
unfoldable pub read_ref : RustType → Place → Ptr → Exec Bytes
read_ref T place p h = elim (load T place p h) [
  | none ↦ fault undefined_behaviour
  | some v ↦ ok v h
]

-- `ptr::write`, and a write through `&mut T`: the new cells of the place.
unfoldable pub write_ref : RustType → Place → Ptr → Bytes → Exec Cells
write_ref T place p v h = elim (store T place p v h) [
  | none ↦ fault undefined_behaviour
  | some (cells, h') ↦ ok cells h'
]

-- `*boxed`: the value is moved out of its box, whose memory is freed.
unfoldable pub unbox : RustType → ℕ → Exec Bytes
unbox T a = do
  v ← read_ref T nowhere (block_at a)
  if T.size == 0 then pure v else (dealloc a (layout_of T) >> pure v)

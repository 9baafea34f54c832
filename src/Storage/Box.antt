-- ===== src/Storage/Box.antt =====
-- `Box` of src/storage.rs: a box whose type has been erased.
pub mod Laws
use dyn_utils.Prelude.{ℕ, Bool, not, ◌==◌, if◌then◌else◌}
use dyn_utils.Memory.{
  Bytes, Cells, RustType, Layout, panicked, Exec, pure, raise, ◌>>=◌, Allocator, box_new, dealloc,
  Ptr, block_at, Place, nowhere,
}
use dyn_utils.Storage.Trait.{Storage, FromBox, default_as_ref, default_as_mut}

pub record Box : Type 0 where
  pub addr : ℕ

-- The box comes as what `Box::into_raw` returns.
unfoldable pub from_box : RustType → ℕ → Exec Box
from_box T raw = if raw == 0 then raise panicked else pure (record { addr = raw })

unfoldable pub new : Allocator → RustType → Bytes → Exec Box
unfolding from_box
new al T v = do raw ← box_new al T v; from_box T raw

unfoldable pub ptr : ℕ → Box → Exec Ptr
ptr self s = pure (block_at s.addr)

unfoldable pub ptr_mut : ℕ → Box → Exec Ptr
ptr_mut self s = pure (block_at s.addr)

unfoldable pub drop_in_place : Box → Layout → Exec (Unit {0})
drop_in_place s layout = if not (layout.size == 0) then dealloc s.addr layout else pure tt

-- A box has no cells of its own for pointers to lead to.
abbrev pub place : ℕ → Box → Place
place self s = nowhere

unfoldable pub box_storage : Allocator → Storage Box
unfolding new ptr ptr_mut drop_in_place default_as_ref default_as_mut
box_storage al = record {
  place_align = 1;
  place = place;
  with_cells = λ s c. s;
  new = new al;
  ptr = ptr;
  ptr_mut = ptr_mut;
  as_ref = default_as_ref place ptr;
  as_mut = default_as_mut place ptr_mut;
  drop_in_place = drop_in_place;
}

unfoldable pub box_from_box : FromBox Box
unfolding from_box
box_from_box = record { from_box = from_box }

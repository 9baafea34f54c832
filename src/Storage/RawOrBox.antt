-- ===== src/Storage/RawOrBox.antt =====
-- `RawOrBox<SIZE, ALIGN>` of src/storage.rs: in place if the type fits, else in a box. The compiler
-- chooses where in the enum the `Raw` variant lies: `payload` is its offset.
mod InPlace
mod OnHeap
pub mod Laws
use dyn_utils.Prelude.{ℕ, ◌+◌, ◌%◌, ◌≡◌, Bool, true, false, if◌then◌else◌, not}
use dyn_utils.Memory.{
  Bytes, Cells, RustType, Layout, undefined_behaviour, Outcome, Exec, pure, raise, ◌>>=◌, Allocator,
  unbox, Ptr, Place, nowhere,
}
use dyn_utils.Storage.Trait.{Storage, FromBox}
use dyn_utils.Storage.Raw
use dyn_utils.Storage.Raw.{Params, Raw, align, can_store, raw_storage}
use dyn_utils.Storage.Box
use dyn_utils.Storage.Box.{Box, box_storage}

-- `RawOrBoxInner`.
pub data RawOrBox : Type 0 where
  raw : Raw → RawOrBox
  box : Box → RawOrBox

-- The layout of the enum: an offset that is a multiple of `ALIGN`.
pub record Variant (P : Params) : Type 0 where
  pub offset : ℕ
  pub aligned : offset % align P ≡ 0

module _ (P : Params) where
  -- The constructor for data that must fit, and `new` where the feature `alloc` is off.
  unfoldable pub new_raw : RustType → Bytes → Exec RawOrBox
  new_raw T v = do s ← Raw.new P T v; pure (raw s)

module _ (al : Allocator) (P : Params) where
  unfoldable pub new : RustType → Bytes → Exec RawOrBox
  new T v =
      if can_store P T
      then (do s ← Raw.new_unchecked P T v; pure (raw s))
      else (do s ← Box.new al T v; pure (box s))

  unfoldable pub from_box : RustType → ℕ → Exec RawOrBox
  unfolding new
  from_box T boxed =
      if can_store P T
      then (do v ← unbox T boxed; new T v)
      else (do s ← Box.from_box T boxed; pure (box s))

module _ {P : Params} (variant : Variant P) where
  abbrev pub place : ℕ → RawOrBox → Place
  place self (raw s) = Raw.place (self + variant.offset) s
  place self (box s) = Box.place self s

  unfoldable pub ptr : ℕ → RawOrBox → Exec Ptr
  ptr self (raw s) = Raw.ptr (self + variant.offset) s
  ptr self (box s) = Box.ptr self s

  unfoldable pub ptr_mut : ℕ → RawOrBox → Exec Ptr
  ptr_mut self (raw s) = Raw.ptr_mut (self + variant.offset) s
  ptr_mut self (box s) = Box.ptr_mut self s

module _ (al : Allocator) {P : Params} (variant : Variant P) where
  -- A variant that does not go with the type is taken to be unreachable.
  unfoldable pub as_ref : RustType → ℕ → RawOrBox → Exec Ptr
  as_ref T self (raw s) =
      if can_store P T
      then (raw_storage P).as_ref T (self + variant.offset) s
      else raise undefined_behaviour
  as_ref T self (box s) =
      if not (can_store P T) then (box_storage al).as_ref T self s else raise undefined_behaviour

  unfoldable pub as_mut : RustType → ℕ → RawOrBox → Exec Ptr
  as_mut T self (raw s) =
      if can_store P T
      then (raw_storage P).as_mut T (self + variant.offset) s
      else raise undefined_behaviour
  as_mut T self (box s) =
      if not (can_store P T) then (box_storage al).as_mut T self s else raise undefined_behaviour

unfoldable pub drop_in_place : RawOrBox → Layout → Exec (Unit {0})
drop_in_place (raw s) layout = Raw.drop_in_place s layout
drop_in_place (box s) layout = Box.drop_in_place s layout

abbrev pub with_cells : RawOrBox → Cells → RawOrBox
with_cells (raw s) c = raw (record { data_cells = c })
with_cells (box s) c = box s

module _ (al : Allocator) {P : Params} (variant : Variant P) where
  unfoldable pub raw_or_box_storage : Storage RawOrBox
  unfolding new ptr ptr_mut as_ref as_mut drop_in_place
  raw_or_box_storage = record {
    place_align = align P;
    place = place variant;
    with_cells = with_cells;
    new = new al P;
    ptr = ptr variant;
    ptr_mut = ptr_mut variant;
    as_ref = as_ref al variant;
    as_mut = as_mut al variant;
    drop_in_place = drop_in_place;
  }

  unfoldable pub raw_or_box_from_box : FromBox RawOrBox
  unfolding from_box
  raw_or_box_from_box = record { from_box = from_box al P }

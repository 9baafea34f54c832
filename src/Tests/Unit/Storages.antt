-- ===== src/Tests/Unit/Storages.antt =====
-- The unit tests of src/storage.rs.
use dyn_utils.Prelude.{
  ℕ, zero, suc, ◌≡◌, refl, Bool, true, false, not, ◌==◌, if◌then◌else◌, Option, List, [], ◌∷◌,
  length,
}
use dyn_utils.Memory.{
  Bytes, RustType, Layout, layout_of, Event, dropped, Heap, Exec, ok, ◌>>=◌, ◌>>◌, read_ref,
  box_new, dealloc, find, without, read_cells, write_cells, load, write_ref, store, store_cells,
  replace,
}
use dyn_utils.Memory.Returns.{Returns, returns}
use dyn_utils.Storage.{Storage}
use dyn_utils.Storage.Raw
use dyn_utils.Storage.Raw.{Params, can_store, raw_storage, new_unchecked}
use dyn_utils.Storage.Box
use dyn_utils.Storage.Box.{box_storage}
use dyn_utils.Storage.RawOrBox.{RawOrBox, raw, box, Variant, raw_or_box_storage}
use dyn_utils.Object.{DropFn, drop_in_place_fn, DynTrait, new, drop, drop_value}
use dyn_utils.Any.{any_vtable, downcast, downcast_ref}
use dyn_utils.Tests.Unit.{assert, bytes_eq, unwrap, unwrap_ok}
use dyn_utils.Tests.Inputs.{bump, empty_heap}

-- `__Vtable` of `dyn Test`.
pub record TestVtable : Type 0 where
  pub drop_fn : Option DropFn
  pub layout : Layout

abbrev pub dyn_test : DynTrait TestVtable
dyn_test = record { vtable_drop = λ vt. vt.drop_fn; vtable_layout = λ vt. vt.layout }

abbrev pub test_vtable : RustType → TestVtable
test_vtable T = record { drop_fn = drop_in_place_fn T; layout = layout_of T }

-- `core::array::from_fn(|i| i as u8)`
abbrev count_from : ℕ → ℕ → Bytes
count_from start zero = []
count_from start (suc n) = start ∷ count_from (suc start) n

abbrev u64 : RustType
u64 = record { size = 8; align_exp = 3; needs_drop = false; type_id = 103 }

abbrev is_raw : RawOrBox → Bool
is_raw (raw s) = true
is_raw (box s) = false

abbrev array : ℕ → RustType
array n = record { size = n; align_exp = 0; needs_drop = false; type_id = n }

unfoldable check_variant : Storage RawOrBox → ℕ → ℕ → (RawOrBox → Bool) → Exec (Unit {0})
unfolding new
check_variant st self n variant = do
  storage ← new st (test_vtable (array n)) (array n) (count_from 0 n)
  assert (variant storage.storage)
  p ← st.ptr self storage.storage
  v ← read_ref (array n) (st.place self storage.storage) p
  assert (bytes_eq v (count_from 0 n))

-- `SetDropped(&mut bool)`: the flag is in the record of the destructors.
abbrev set_dropped : RustType
set_dropped = record { size = 8; align_exp = 3; needs_drop = true; type_id = 100 }

abbrev flag : Bytes
flag = 1 ∷ 0 ∷ 0 ∷ 0 ∷ 0 ∷ 0 ∷ 0 ∷ 0 ∷ []

abbrev drops : Bytes → List Event → ℕ
drops v [] = 0
drops v (dropped T w ∷ log) = let rest = drops v log in if bytes_eq v w then suc rest else rest

abbrev drops_of : Bytes → Exec ℕ
drops_of v h = ok (drops v h.log) h

-- The destructor asserts that the flag is not set, so it has run once.
unfoldable check_drop : {S : Type 0} → Storage S → ℕ → Exec (Unit {0})
unfolding new drop
check_drop st self = do
  storage ← new st (test_vtable set_dropped) set_dropped flag
  p ← st.ptr self storage.storage
  v ← read_ref set_dropped (st.place self storage.storage) p
  before ← drops_of v
  assert (before == 0)
  drop st dyn_test self storage
  after ← drops_of flag
  assert (after == 1)

abbrev pub unit_type : RustType
unit_type = record { size = 0; align_exp = 0; needs_drop = false; type_id = 101 }

unfoldable check_dst : {S : Type 0} → Storage S → ℕ → Exec (Unit {0})
unfolding new drop
check_dst st self = do
  storage ← new st (test_vtable unit_type) unit_type []
  drop st dyn_test self storage

-- The `RefCell<bool>`, as a borrow count and the value; `borrow_mut` writes through a reference.
abbrev ref_cell : RustType
ref_cell = record { size = 16; align_exp = 3; needs_drop = false; type_id = 102 }

abbrev cell_holding : ℕ → Bytes
cell_holding b = 0 ∷ 0 ∷ 0 ∷ 0 ∷ 0 ∷ 0 ∷ 0 ∷ 0 ∷ b ∷ 0 ∷ 0 ∷ 0 ∷ 0 ∷ 0 ∷ 0 ∷ 0 ∷ []

unfoldable check_interior_mutability : {S : Type 0} → Storage S → ℕ → Exec (Unit {0})
unfolding new downcast downcast_ref
check_interior_mutability st self = do
  obj ← new st (any_vtable ref_cell) ref_cell (cell_holding 0)
  found ← downcast_ref st ref_cell self obj
  p ← unwrap found
  cells ← write_ref ref_cell (st.place self obj.storage) p (cell_holding 1)
  taken ← downcast st ref_cell self record obj { storage = st.with_cells obj.storage cells }
  v ← unwrap_ok taken
  assert (bytes_eq v (cell_holding 1))

-- Raw storages of a size with the alignment of a `usize`, and the offset of their variant.
abbrev params : ℕ → Params
params size = record { size = size; align_exp = 3 }

abbrev variant : (size : ℕ) → Variant (params size)
variant size = record { offset = 8; aligned = refl }

abbrev raw_or_box : ℕ → Storage RawOrBox
raw_or_box size = raw_or_box_storage bump (variant size)

-- `RawOrBox<8, 1>`
abbrev unaligned : Storage RawOrBox
unaligned =
    raw_or_box_storage bump {P = record { size = 8; align_exp = 0 }}
      (record { offset = 1; aligned = refl })

-- An array of 4 bytes and no array of 64 bytes stays in place, and an aligned word does not if the
-- storage is not aligned.
raw_or_box_test :
    (check_variant (raw_or_box 8) 64 4 is_raw empty_heap ≡ ok tt empty_heap)
    × Returns
        (λ _ h. length h.blocks ≡ 1)
        (check_variant (raw_or_box 8) 64 64 (λ s. not (is_raw s)) empty_heap)
    × Returns
        (λ obj h. is_raw obj.storage ≡ false)
        (new unaligned (test_vtable u64) u64 (0 ∷ 0 ∷ 0 ∷ 0 ∷ 0 ∷ 0 ∷ 0 ∷ 0 ∷ []) empty_heap)
unfolding check_variant raw_storage box_storage raw_or_box_storage Raw.new Box.new can_store
    new_unchecked new box_new find dealloc without replace write_cells read_cells load read_ref
    store store_cells write_ref drop_in_place_fn drop_value
raw_or_box_test = (refl, returns refl, returns refl)

abbrev set_dropped_once : Heap
set_dropped_once = record { blocks = []; log = dropped set_dropped flag ∷ [] }

storage_drop :
    (check_drop (raw_storage (params 8)) 64 empty_heap ≡ ok tt set_dropped_once)
    × (check_drop (box_storage bump) 64 empty_heap ≡ ok tt set_dropped_once)
    × (check_drop (raw_or_box 8) 64 empty_heap ≡ ok tt set_dropped_once)
    × (check_drop (raw_or_box 0) 64 empty_heap ≡ ok tt set_dropped_once)
unfolding check_drop raw_storage box_storage raw_or_box_storage Raw.new Box.new can_store
    new_unchecked new box_new find dealloc without replace write_cells read_cells load read_ref
    store store_cells write_ref drop_in_place_fn drop_value
storage_drop = (refl, refl, refl, refl)

storage_dst :
    (check_dst (raw_storage (params 8)) 64 empty_heap ≡ ok tt empty_heap)
    × (check_dst (box_storage bump) 64 empty_heap ≡ ok tt empty_heap)
    × (check_dst (raw_or_box 8) 64 empty_heap ≡ ok tt empty_heap)
    × (check_dst (raw_or_box 0) 64 empty_heap ≡ ok tt empty_heap)
unfolding check_dst raw_storage box_storage raw_or_box_storage Raw.new Box.new can_store
    new_unchecked new box_new find dealloc without replace write_cells read_cells load read_ref
    store store_cells write_ref drop_in_place_fn drop_value
storage_dst = (refl, refl, refl, refl)

storage_interior_mutability :
    (check_interior_mutability (raw_storage (params 16)) 64 empty_heap ≡ ok tt empty_heap)
    × (check_interior_mutability (box_storage bump) 64 empty_heap ≡ ok tt empty_heap)
    × (check_interior_mutability (raw_or_box 16) 64 empty_heap ≡ ok tt empty_heap)
    × (check_interior_mutability (raw_or_box 0) 64 empty_heap ≡ ok tt empty_heap)
unfolding check_interior_mutability raw_storage box_storage raw_or_box_storage Raw.new Box.new
    can_store new_unchecked new box_new find dealloc without replace write_cells read_cells load
    read_ref store store_cells write_ref drop_in_place_fn drop_value
storage_interior_mutability = (refl, refl, refl, refl)

-- ===== src/Tests/Unit/Objects.antt =====
-- The unit tests of src/impls.rs and src/object.rs on objects in the default storage, but for those
-- of futures.
use dyn_utils.Prelude.{
  ℕ, zero, suc, ◌+◌, ◌-◌, ◌≡◌, refl, true, false, Option, none, some, List, [], ◌∷◌, length,
}
use dyn_utils.Memory.{
  Bytes, RustType, dropped, Exec, ok, pure, ◌>>=◌, ◌>>◌, read_ref, write_ref, load, store,
  store_cells, read_cells, write_cells, box_new, dealloc, find, without,
}
use dyn_utils.Storage.{Storage}
use dyn_utils.Storage.Raw.{can_store, new_unchecked, raw_storage}
use dyn_utils.Storage.Box
use dyn_utils.Storage.Box.{box_storage}
use dyn_utils.Storage.RawOrBox.{RawOrBox, Variant, raw_or_box_storage}
use dyn_utils.Storage.Default.{default_params}
use dyn_utils.Object.{drop_in_place_fn, drop_value, new, drop}
use dyn_utils.Object.Call.{call_ref, call_mut}
use dyn_utils.Any.{any_vtable, dyn_any, downcast, downcast_mut, downcast_ref, is}
use dyn_utils.Iterator.{IsIterator, iterator_vtable, next_of, nth_of, size_hint_of}
use dyn_utils.Tests.Inputs.{bump, empty_heap}
use dyn_utils.Tests.Unit.{assert, bytes_eq, is_none, unwrap, unwrap_err, unwrap_ok}

abbrev bool_type : RustType
bool_type = record { size = 1; align_exp = 0; needs_drop = false; type_id = 1 }

abbrev unit_type : RustType
unit_type = record { size = 0; align_exp = 0; needs_drop = false; type_id = 2 }

abbrev droppable : RustType
droppable = record { size = 0; align_exp = 0; needs_drop = true; type_id = 3 }

abbrev default_variant : Variant (default_params 8 3)
default_variant = record { offset = 8; aligned = refl }

abbrev pub default_storage : Storage RawOrBox
default_storage = raw_or_box_storage bump default_variant

-- `any_test`, but for its last line.
unfoldable any_test : {S : Type 0} → Storage S → ℕ → Exec (Unit {0})
unfolding new drop downcast downcast_mut downcast_ref
any_test st self = do
  any ← new st (any_vtable bool_type) bool_type (0 ∷ [])
  wrong ← downcast_ref st unit_type self any
  assert (is_none wrong)
  found ← downcast_ref st bool_type self any
  p ← unwrap found
  v ← read_ref bool_type (st.place self any.storage) p
  assert (bytes_eq v (0 ∷ []))
  wrong ← downcast_mut st unit_type self any
  assert (is_none wrong)
  found ← downcast_mut st bool_type self any
  p ← unwrap found
  cells ← write_ref bool_type (st.place self any.storage) p (1 ∷ [])
  let any = record any { storage = st.with_cells any.storage cells }
  refused ← downcast st unit_type self any
  storage ← unwrap_err refused
  taken ← downcast st bool_type self storage
  v ← unwrap_ok taken
  assert (bytes_eq v (1 ∷ []))
  unit ← new st (any_vtable unit_type) unit_type []
  drop st dyn_any self unit
  object ← new st (any_vtable droppable) droppable []
  drop st dyn_any self object

-- The last line: an object in a box, which is taken out.
unfoldable any_box_test : {S : Type 0} → Storage S → ℕ → Exec Bytes
unfolding new downcast
any_box_test st self = do
  any ← new st (any_vtable bool_type) bool_type (0 ∷ [])
  taken ← downcast st bool_type self any
  unwrap_ok taken

-- `[0, 1, 2, 3].into_iter()`: how many have been taken, and the array.
abbrev into_iter : RustType
into_iter = record { size = 5; align_exp = 0; needs_drop = false; type_id = 4 }

abbrev get : List ℕ → ℕ → Option ℕ
get [] i = none
get (x ∷ xs) zero = some x
get (x ∷ xs) (suc i) = get xs i

abbrev array_nth : ℕ → Bytes → Bytes × Option ℕ
array_nth n [] = ([], none)
array_nth n (i ∷ xs) = (suc (i + n) ∷ xs, get xs (i + n))

array_nth_sized : (n : ℕ) (v : Bytes) → length v ≡ 5 → length (array_nth n v).0 ≡ 5
array_nth_sized n [] e = e
array_nth_sized n (i ∷ xs) e = e

abbrev array_size_hint : Bytes → ℕ × Option ℕ
array_size_hint [] = (0, some 0)
array_size_hint (i ∷ xs) = (length xs - i, some (length xs - i))

abbrev array_iterator : IsIterator into_iter ℕ
array_iterator = record {
  next = array_nth 0;
  size_hint = array_size_hint;
  nth = array_nth;
  next_sized = array_nth_sized 0;
  nth_sized = array_nth_sized;
}

-- The replies of `size_hint`, `nth(2)` and `next`.
unfoldable iterator_test :
    {S : Type 0} → Storage S → ℕ → Exec ((ℕ × Option ℕ) × (Option ℕ × Option ℕ))
unfolding new iterator_vtable call_ref call_mut next_of nth_of size_hint_of
iterator_test st self = do
  iter ← new st (iterator_vtable st into_iter array_iterator) into_iter (0 ∷ 0 ∷ 1 ∷ 2 ∷ 3 ∷ [])
  bounds ← size_hint_of self iter
  (iter, third) ← nth_of self iter 2
  (iter, fourth) ← next_of self iter
  pure (bounds, (third, fourth))

dyn_any_test :
    (any_test default_storage 64 empty_heap
      ≡ ok tt (record { blocks = []; log = dropped droppable [] ∷ [] }))
    × (any_box_test (box_storage bump) 64 empty_heap ≡ ok (0 ∷ []) empty_heap)
unfolding any_test any_box_test raw_storage raw_or_box_storage box_storage Box.new can_store
    new_unchecked box_new find dealloc without write_cells read_cells load read_ref store
    store_cells write_ref drop_in_place_fn drop_value is
dyn_any_test = (refl, refl)

dyn_iterator_test :
    iterator_test default_storage 64 empty_heap ≡ ok ((4, some 4), (some 2, some 3)) empty_heap
unfolding iterator_test raw_storage raw_or_box_storage box_storage Box.new can_store new_unchecked
    box_new find dealloc without write_cells read_cells load read_ref store store_cells write_ref
    drop_in_place_fn drop_value is
dyn_iterator_test = refl

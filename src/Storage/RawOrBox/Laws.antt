-- ===== src/Storage/RawOrBox/Laws.antt =====
-- `RawOrBox` keeps the contract of a storage for every type, whichever variant it takes.
use dyn_utils.Prelude.{ℕ, ◌≡◌, ◌⊎◌, ◌≤◌, ◌↔◌, inl, inr, Bool, true, false, arith, Bool-cases}
use dyn_utils.Memory.{
  Bytes, RustType, align_of, Heap, Outcome, ok, fault, and_then, pure, Allocator, Fits, Boxed,
  owned_by_box, release, unbox_lem,
}
use dyn_utils.Storage.Trait.{IsStorage, IsFromBox}
use dyn_utils.Storage.Raw
use dyn_utils.Storage.Raw.{Params, Raw, align, can_store, raw_storage}
use dyn_utils.Storage.Raw.Laws.{can_store_iff}
use dyn_utils.Storage.Box
use dyn_utils.Storage.Box.{Box, box_storage, box_from_box}
use dyn_utils.Storage.RawOrBox.{
  RawOrBox, raw, box, Variant, new, from_box, raw_or_box_storage, raw_or_box_from_box,
}
use dyn_utils.Storage.RawOrBox.InPlace.{in_place_laws}
use dyn_utils.Storage.RawOrBox.OnHeap.{on_heap_laws}

module _ (al : Allocator) {P : Params} (variant : Variant P) (T : RustType) where
  -- For every type, whether it fits or not, `RawOrBox` keeps the contract of a storage, and that of
  -- the construction from a box: it never stops the build and never reaches the branch that is
  -- taken to be unreachable.
  pub raw_or_box_laws :
      (law : IsStorage (raw_or_box_storage al variant) T) × IsFromBox
        (raw_or_box_from_box al variant)
        law
  raw_or_box_laws = elim (Bool-cases (can_store P T)) [
    | inl fits ↦ in_place_laws al variant T fits
    | inr no_fit ↦ on_heap_laws al variant T no_fit
  ]

abbrev pub is_raw : RawOrBox → Bool
is_raw (raw s) = true
is_raw (box s) = false

raw_of :
    (r : Outcome Raw) (s : RawOrBox) (h : Heap)
    → and_then r (λ x. pure (raw x)) ≡ ok s h
    → is_raw s ≡ true
raw_of (ok x k) s h e = ground arith
raw_of (fault f) s h e = cc

box_of :
    (r : Outcome Box) (s : RawOrBox) (h : Heap)
    → and_then r (λ x. pure (box x)) ≡ ok s h
    → is_raw s ≡ false
box_of (ok x k) s h e = ground arith
box_of (fault f) s h e = cc

module _ (al : Allocator) (P : Params) (T : RustType) where
  new-variant :
      (v : Bytes) (h h' : Heap) (s : RawOrBox) → new al P T v h ≡ ok s h' → is_raw s ≡ can_store P T
  unfolding new
  new-variant v h h' s e = elim (Bool-cases (can_store P T)) [
    | inl fits ↦ rw fits (raw_of (Raw.new_unchecked P T v h) s h' (rw fits at e))
    | inr no_fit ↦ rw no_fit (box_of (Box.new al T v h) s h' (rw no_fit at e))
  ]

  from_box-variant :
      (v : Bytes) (a : ℕ) (h h' : Heap) (s : RawOrBox)
      → Fits T a
      → Boxed T v a h.blocks
      → from_box al P T a h ≡ ok s h'
      → is_raw s ≡ can_store P T
  unfolding from_box
  from_box-variant v a h h' s f boxed e = elim (Bool-cases (can_store P T)) [
    | inl fits ↦ rw fits (
        raw_of (Raw.new_unchecked P T v (release (owned_by_box T a) h)) s h'
          (rw (fits, unbox_lem T v a h f boxed) at e))
    | inr no_fit ↦ rw no_fit (box_of (Box.from_box T a h) s h' (rw no_fit at e))
  ]

  -- Whatever `new` makes, or `from_box` of a boxed value, is the variant `Raw` exactly if the size
  -- and the alignment of the type are at most those of the parameters.
  pub variant_of_type :
      (v : Bytes) (h h' : Heap) (s : RawOrBox)
      → (new al P T v h ≡ ok s h')
        ⊎ ((a : ℕ) × Fits T a × Boxed T v a h.blocks × (from_box al P T a h ≡ ok s h'))
      → (is_raw s ≡ true) ↔ ((T.size ≤ P.size) × (align_of T ≤ align P))
  variant_of_type v h h' s (inl e) = rw (new-variant v h h' s e) (can_store_iff P T)
  variant_of_type v h h' s (inr (a, f, boxed, e)) =
      rw (from_box-variant v a h h' s f boxed e) (can_store_iff P T)

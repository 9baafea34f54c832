-- ===== src/Storage/RawOrBox/OnHeap.antt =====
-- `RawOrBox` for a type that does not fit: the value lies in the `Box` variant.
use dyn_utils.Prelude.{ℕ, ◌≡◌, ◌≢◌, false, Option, none, some, arith, List, length}
use dyn_utils.Memory.{
  Bytes, RustType, layout_of, Block, Heap, ok, Allocator, Ptr, load, find, write_ref, Fits, Boxed,
  owned_by_box, release,
}
use dyn_utils.Memory.Returns.{Returns, returns, bind}
use dyn_utils.Storage.Trait.{IsStorage, IsFromBox, IsFresh}
use dyn_utils.Storage.Raw.{Params, can_store}
use dyn_utils.Storage.Box.{box_storage, box_from_box}
use dyn_utils.Storage.Box.Laws.{box_laws}
use dyn_utils.Storage.RawOrBox.{
  RawOrBox, raw, box, Variant, new, place, ptr, ptr_mut, as_ref, as_mut, drop_in_place, with_cells,
  from_box, raw_or_box_storage, raw_or_box_from_box,
}

module _ (al : Allocator) {P : Params} (variant : Variant P) (T : RustType) where
  box_law : IsStorage (box_storage al) T
  box_law = (box_laws al T).0

  -- any other type lies in the `Box` variant
  abbrev StoresBox : Bytes → RawOrBox → List Block → Type 0
  StoresBox v (raw r) bs = ⊥
  StoresBox v (box b) bs = box_law.Stores v b bs

  abbrev box_owned : RawOrBox → Option ℕ
  box_owned (raw r) = none
  box_owned (box b) = box_law.owned b

  module _ (no_fit : can_store P T ≡ false) where
    on_heap-new :
        (v : Bytes) (h : Heap)
        → length v ≡ T.size
        → Returns
            (λ s h'.
              StoresBox v s h'.blocks × (release (box_owned s) h' ≡ h) × IsFresh (box_owned s) h h')
            (new al P T v h)
    unfolding new box_storage
    on_heap-new v h len = rw no_fit (bind (box_law.new_lem v h len) λ s h' p. returns p)

    on_heap-access :
        (v : Bytes) (s : RawOrBox) (h : Heap) (self : ℕ)
        → StoresBox v s h.blocks
        → self ≢ 0
        → (p : Ptr) × (ptr variant self s h ≡ ok p h)
          × (ptr_mut variant self s h ≡ ok p h)
          × (as_ref al variant T self s h ≡ ok p h)
          × (as_mut al variant T self s h ≡ ok p h)
          × (load T (place variant self s) p h ≡ some v)
    unfolding ptr ptr_mut as_ref as_mut box_storage
    on_heap-access v (raw r) h self st at = absurd st
    on_heap-access v (box b) h self st at =
        let (p, e1, e2, e3, e4, e5) = box_law.access v b h self st (at, omega arith) in
        (p, e1, e2, rw no_fit e3, rw no_fit e4, e5)

    on_heap-write :
        (v w : Bytes) (s : RawOrBox) (h : Heap) (self : ℕ) (p : Ptr)
        → StoresBox v s h.blocks
        → self ≢ 0
        → length w ≡ T.size
        → as_mut al variant T self s h ≡ ok p h
        → Returns
            (λ c h'.
              StoresBox w (with_cells s c) h'.blocks
              × (box_owned (with_cells s c) ≡ box_owned s)
              × (release (box_owned s) h' ≡ release (box_owned s) h))
            (write_ref T (place variant self s) p w h)
    unfolding as_mut box_storage
    on_heap-write v w (raw r) h self p st at len e = absurd st
    on_heap-write v w (box b) h self p st at len e =
        box_law.write_lem v w b h self p st (at, omega arith) len (rw no_fit at e)

    on_heap-drop :
        (v : Bytes) (s : RawOrBox) (h : Heap)
        → StoresBox v s h.blocks
        → drop_in_place s (layout_of T) h ≡ ok tt (release (box_owned s) h)
    unfolding drop_in_place box_storage
    on_heap-drop v (raw r) h st = absurd st
    on_heap-drop v (box b) h st = box_law.drop_lem v b h st

    on_heap-live :
        (v : Bytes) (s : RawOrBox) (bs : List Block) (a : ℕ)
        → StoresBox v s bs
        → box_owned s ≡ some a
        → (b : Block) × (find a bs ≡ some b)
    on_heap-live v (box b) bs a st e = box_law.live v b bs a st e
    on_heap-live v (raw r) bs a st e = absurd st

    on_heap-frame :
        (v : Bytes) (s : RawOrBox) (bs bs' : List Block)
        → StoresBox v s bs
        → ((a : ℕ) (b : Block) → box_owned s ≡ some a → find a bs ≡ some b → find a bs' ≡ some b)
        → StoresBox v s bs'
    on_heap-frame v (box b) bs bs' st same = box_law.frame v b bs bs' st same
    on_heap-frame v (raw r) bs bs' st same = absurd st

    on_heap-from_box :
        (v : Bytes) (a : ℕ) (h : Heap)
        → length v ≡ T.size
        → Fits T a
        → Boxed T v a h.blocks
        → Returns
            (λ s h'.
              StoresBox v s h'.blocks × (release (box_owned s) h' ≡ release (owned_by_box T a) h))
            (from_box al P T a h)
    unfolding from_box box_from_box box_law
    on_heap-from_box v a h len f boxed =
        rw no_fit (bind ((box_laws al T).1.from_box_lem v a h len f boxed) λ s h' p. returns p)

    pub on_heap_laws :
        (law : IsStorage (raw_or_box_storage al variant) T) × IsFromBox
          (raw_or_box_from_box al variant)
          law
    unfolding raw_or_box_storage raw_or_box_from_box
    on_heap_laws = (
      record {
        Stores = StoresBox;
        owned = box_owned;
        new_lem = on_heap-new;
        access = λ v s h self st at. on_heap-access v s h self st at.0;
        write_lem = λ v w s h self p st at. on_heap-write v w s h self p st at.0;
        drop_lem = on_heap-drop;
        live = on_heap-live;
        frame = on_heap-frame;
      },
      record { from_box_lem = on_heap-from_box },
    )

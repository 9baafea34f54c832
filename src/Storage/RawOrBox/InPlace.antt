-- ===== src/Storage/RawOrBox/InPlace.antt =====
-- `RawOrBox` for a type that fits: the value lies in the `Raw` variant.
use dyn_utils.Prelude.{ℕ, ◌+◌, ◌≡◌, true, Option, none, some, arith, List, length, aligned_add}
use dyn_utils.Memory.{
  Bytes, RustType, layout_of, Block, Heap, ok, Allocator, Ptr, load, find, write_ref, Fits, Boxed,
  owned_by_box, release, unbox_lem,
}
use dyn_utils.Memory.Returns.{Returns, returns, bind, weaken}
use dyn_utils.Storage.Trait.{IsStorage, IsFromBox, IsPlace, IsFresh}
use dyn_utils.Storage.Raw.{Params, align, can_store, raw_storage}
use dyn_utils.Storage.Raw.Laws.{raw-IsStorage}
use dyn_utils.Storage.RawOrBox.{
  RawOrBox, raw, box, Variant, new, place, ptr, ptr_mut, as_ref, as_mut, drop_in_place, with_cells,
  from_box, raw_or_box_storage, raw_or_box_from_box,
}

module _ (al : Allocator) {P : Params} (variant : Variant P) (T : RustType) where
  payload-IsPlace :
      (self : ℕ)
      → IsPlace (raw_or_box_storage al variant) self
      → IsPlace (raw_storage P) (self + variant.offset)
  unfolding raw_or_box_storage raw_storage
  payload-IsPlace self at =
      (omega arith, aligned_add self variant.offset (align P) at.1 variant.aligned)

  -- a type that fits lies in the `Raw` variant
  module _ (fits : can_store P T ≡ true) where
    raw_law : IsStorage (raw_storage P) T
    raw_law = raw-IsStorage P T fits

    abbrev StoresRaw : Bytes → RawOrBox → List Block → Type 0
    StoresRaw v (raw r) bs = raw_law.Stores v r bs
    StoresRaw v (box b) bs = ⊥

    abbrev raw_owned : RawOrBox → Option ℕ
    raw_owned (raw r) = raw_law.owned r
    raw_owned (box b) = none

    in_place-new :
        (v : Bytes) (h : Heap)
        → length v ≡ T.size
        → Returns
            (λ s h'.
              StoresRaw v s h'.blocks × (release (raw_owned s) h' ≡ h) × IsFresh (raw_owned s) h h')
            (new al P T v h)
    unfolding new raw_storage
    in_place-new v h len =
        let made = rw fits at (raw_law.new_lem v h len) in rw fits (bind made λ s h' p. returns p)

    in_place-access :
        (v : Bytes) (s : RawOrBox) (h : Heap) (self : ℕ)
        → StoresRaw v s h.blocks
        → IsPlace (raw_or_box_storage al variant) self
        → (p : Ptr) × (ptr variant self s h ≡ ok p h)
          × (ptr_mut variant self s h ≡ ok p h)
          × (as_ref al variant T self s h ≡ ok p h)
          × (as_mut al variant T self s h ≡ ok p h)
          × (load T (place variant self s) p h ≡ some v)
    unfolding ptr ptr_mut as_ref as_mut raw_storage
    in_place-access v (raw r) h self st at =
        let (p, e1, e2, e3, e4, e5) = raw_law.access v r h _ st (payload-IsPlace self at) in
        (p, e1, e2, rw fits e3, rw fits e4, e5)
    in_place-access v (box b) h self st at = absurd st

    in_place-write :
        (v w : Bytes) (s : RawOrBox) (h : Heap) (self : ℕ) (p : Ptr)
        → StoresRaw v s h.blocks
        → IsPlace (raw_or_box_storage al variant) self
        → length w ≡ T.size
        → as_mut al variant T self s h ≡ ok p h
        → Returns
            (λ c h'.
              StoresRaw w (with_cells s c) h'.blocks
              × (raw_owned (with_cells s c) ≡ raw_owned s)
              × (release (raw_owned s) h' ≡ release (raw_owned s) h))
            (write_ref T (place variant self s) p w h)
    unfolding as_mut raw_storage
    in_place-write v w (raw r) h self p st at len e =
        raw_law.write_lem v w r h _ p st (payload-IsPlace self at) len (rw fits at e)
    in_place-write v w (box b) h self p st at len e = absurd st

    in_place-drop :
        (v : Bytes) (s : RawOrBox) (h : Heap)
        → StoresRaw v s h.blocks
        → drop_in_place s (layout_of T) h ≡ ok tt (release (raw_owned s) h)
    unfolding drop_in_place raw_storage
    in_place-drop v (raw r) h st = raw_law.drop_lem v r h st
    in_place-drop v (box b) h st = absurd st

    in_place-live :
        (v : Bytes) (s : RawOrBox) (bs : List Block) (a : ℕ)
        → StoresRaw v s bs
        → raw_owned s ≡ some a
        → (b : Block) × (find a bs ≡ some b)
    in_place-live v (raw r) bs a st e = raw_law.live v r bs a st e
    in_place-live v (box b) bs a st e = absurd st

    in_place-frame :
        (v : Bytes) (s : RawOrBox) (bs bs' : List Block)
        → StoresRaw v s bs
        → ((a : ℕ) (b : Block) → raw_owned s ≡ some a → find a bs ≡ some b → find a bs' ≡ some b)
        → StoresRaw v s bs'
    in_place-frame v (raw r) bs bs' st same = raw_law.frame v r bs bs' st same
    in_place-frame v (box b) bs bs' st same = absurd st

    -- data that fits is moved out of its box
    in_place-from_box :
        (v : Bytes) (a : ℕ) (h : Heap)
        → length v ≡ T.size
        → Fits T a
        → Boxed T v a h.blocks
        → Returns
            (λ s h'.
              StoresRaw v s h'.blocks × (release (raw_owned s) h' ≡ release (owned_by_box T a) h))
            (from_box al P T a h)
    unfolding from_box
    in_place-from_box v a h len f boxed =
        let made = rw fits at (in_place-new v (release (owned_by_box T a) h) len) in
        rw (fits, unbox_lem T v a h f boxed) (weaken made λ s h' p. (p.0, p.1))

    pub in_place_laws :
        (law : IsStorage (raw_or_box_storage al variant) T) × IsFromBox
          (raw_or_box_from_box al variant)
          law
    unfolding raw_or_box_storage raw_or_box_from_box
    in_place_laws = (
      record {
        Stores = StoresRaw;
        owned = raw_owned;
        new_lem = in_place-new;
        access = in_place-access;
        write_lem = in_place-write;
        drop_lem = in_place-drop;
        live = in_place-live;
        frame = in_place-frame;
      },
      record { from_box_lem = in_place-from_box },
    )

-- ===== src/Object/Laws.antt =====
-- The life of a `DynObject`, for every storage that keeps its contract.
use dyn_utils.Prelude.{ℕ, ◌≡◌, refl, ap, ◌∙◌, Option, some, List, ◌∷◌, arith, if◌then◌else◌, length}
use dyn_utils.Memory.{
  Bytes, RustType, Block, Heap, Outcome, ok, and_then, pure, Ptr, Place, load, release, dropped,
  read_ref-ok, Fits, Boxed, owned_by_box, ◌>>=◌,
}
use dyn_utils.Memory.Returns.{Returns, returns, bind}
use dyn_utils.Storage.{Storage, FromBox, IsPlace, IsFresh, IsStorage, IsFromBox}
use dyn_utils.Object.{
  DynTrait, IsVtable, DynObject, drop_value, drop_in_place_fn, new, from_box, drop_inner, drop,
}

-- The heap after the destructor of a value has run, if its type has one.
abbrev pub destroyed : RustType → Bytes → Heap → Heap
destroyed T v h = record h { log = if T.needs_drop then dropped T v ∷ h.log else h.log }

module _ {S V : Type 0} {st : Storage S} (dt : DynTrait V) {T : RustType}
    (law : IsStorage st T) where
  -- An object of a value of the type.
  pub record Holds (v : Bytes) (obj : DynObject S V) (bs : List Block) : Type 0 where
    pub vtable : IsVtable dt T obj.vtable
    pub stores : law.Stores v obj.storage bs

  -- What an object owns.
  abbrev pub owns : DynObject S V → Option ℕ
  owns obj = law.owned obj.storage

  -- Construction stores the value, and all it does to the heap is to add what the object owns.
  pub new_lem :
      (vt : V) (v : Bytes) (h : Heap)
      → IsVtable dt T vt
      → length v ≡ T.size
      → Returns
          (λ obj h'. Holds v obj h'.blocks × (release (owns obj) h' ≡ h) × IsFresh (owns obj) h h')
          (new st vt T v h)
  unfolding new
  new_lem vt v h is len = bind (law.new_lem v h len) λ s h' (stored, restores, fresh).
      returns (record { vtable = is; stores = stored }, restores, fresh)

  drop_inner_lem :
      (v : Bytes) (s : S) (h : Heap) (self : ℕ)
      → law.Stores v s h.blocks
      → IsPlace st self
      → drop_inner st dt (drop_in_place_fn T) self s h ≡ ok tt (destroyed T v h)
  unfolding drop_inner drop_in_place_fn drop_value
  drop_inner_lem v s h self stored at =
      let (p, e1, e2, e3, e4, got) = law.access v s h self stored at in
      ground (arith, e2, drop_value_lem (st.place self s) p h got)
    where
      drop_value_lem :
          (place : Place) (p : Ptr) (h : Heap)
          → load T place p h ≡ some v
          → drop_value T place p h ≡ ok tt (record h { log = dropped T v ∷ h.log })
      drop_value_lem place p h got = rw (read_ref-ok T place p h v got) refl

  -- Dropping an object runs the destructor of its value once, on that value, if the type has one,
  -- and then frees what the object owns.
  pub drop_lem :
      (v : Bytes) (obj : DynObject S V) (h : Heap) (self : ℕ)
      → Holds v obj h.blocks
      → IsPlace st self
      → drop st dt self obj h ≡ ok tt (release (owns obj) (destroyed T v h))
  unfolding drop
  drop_lem v obj h self is at =
      rw (is.vtable.drop_fn, is.vtable.layout, drop_inner_lem v obj.storage h self is.stores at)
        (law.drop_lem v obj.storage (destroyed T v h) is.stores)

  -- A new object that is dropped leaves no trace but the one run of the destructor.
  pub drop-new :
      (vt : V) (v : Bytes) (h : Heap) (self : ℕ)
      → IsVtable dt T vt
      → length v ≡ T.size
      → IsPlace st self
      → (new st vt T v >>= λ obj. drop st dt self obj) h ≡ ok tt (destroyed T v h)
  drop-new vt v h self is len at = finish (new_lem vt v h is len)
    where
      finish :
          {r : Outcome (DynObject S V)}
          → Returns
              (λ obj h'.
                Holds v obj h'.blocks × (release (owns obj) h' ≡ h) × IsFresh (owns obj) h h')
              r
          → and_then r (λ obj. drop st dt self obj) ≡ ok tt (destroyed T v h)
      finish (returns {a = obj} {h = h'} (holds, restores, fresh)) =
          drop_lem v obj h' self holds at ∙ ap (λ k. ok tt (destroyed T v k)) restores

  -- An object that is made from a box and dropped runs its destructor once if the type has one,
  -- and gives up what the box owned and no more of the heap.
  pub drop-from_box :
      (fb : FromBox S)
      → IsFromBox fb law
      → (vt : V) (v : Bytes) (boxed : ℕ) (h : Heap) (self : ℕ) → IsVtable dt T vt
      → length v ≡ T.size
      → Fits T boxed
      → Boxed T v boxed h.blocks
      → IsPlace st self
      → (from_box st fb vt T boxed >>= λ obj. drop st dt self obj) h
        ≡ ok tt (release (owned_by_box T boxed) (destroyed T v h))
  unfolding from_box
  drop-from_box fb fits vt v boxed h self is len f has at =
      finish (fits.from_box_lem v boxed h len f has)
    where
      finish :
          {r : Outcome S}
          → Returns
              (λ s h'.
                law.Stores v s h'.blocks
                × (release (law.owned s) h' ≡ release (owned_by_box T boxed) h))
              r
          → and_then
              (and_then r (λ s. pure (record { storage = s; vtable = vt })))
              (λ obj. drop st dt self obj)
            ≡ ok tt (release (owned_by_box T boxed) (destroyed T v h))
      finish (returns {a = s} {h = h'} (stored, same)) =
          drop_lem v (record { storage = s; vtable = vt }) h' self
            (record { vtable = is; stores = stored }) at
          ∙ ap (λ k. ok tt (destroyed T v k)) same

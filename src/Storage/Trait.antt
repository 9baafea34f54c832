-- ===== src/Storage/Trait.antt =====
-- The traits `Storage` and `FromBox` of src/storage.rs, and the contract of a storage.
use dyn_utils.Prelude.{ℕ, ◌%◌, ◌≡◌, ◌≢◌, Option, none, some, length, List}
use dyn_utils.Memory.{
  Bytes, Cells, RustType, Layout, layout_of, Block, Heap, undefined_behaviour, ok, fault, Exec,
  ◌>>=◌, Ptr, Place, load, find, write_ref, Fits, release, Boxed, owned_by_box,
}
use dyn_utils.Memory.Returns.{Returns}

-- The trait `Storage`. A method on a reference takes the address of the storage. `place` is the
-- memory of the storage itself at such an address, `place_align` a divisor of the alignment of its
-- type, and `with_cells` the storage after a write to that memory.
pub record Storage (S : Type 0) : Type 0 where
  pub place_align : ℕ
  pub place : ℕ → S → Place
  pub with_cells : S → Cells → S
  pub new : RustType → Bytes → Exec S
  pub ptr : ℕ → S → Exec Ptr
  pub ptr_mut : ℕ → S → Exec Ptr
  pub as_ref : RustType → ℕ → S → Exec Ptr
  pub as_mut : RustType → ℕ → S → Exec Ptr
  pub drop_in_place : S → Layout → Exec (Unit {0})

-- The trait `FromBox`: the box comes as its raw pointer.
pub record FromBox (S : Type 0) : Type 0 where
  pub from_box : RustType → ℕ → Exec S

-- `NonNull::cast().as_ref()`: a reference is undefined behaviour unless a `T` is there.
unfoldable pub deref_as : RustType → Place → Ptr → Exec Ptr
deref_as T place p h = elim (load T place p h) [
  | none ↦ fault undefined_behaviour
  | some v ↦ ok p h
]

-- The provided body of `Storage::as_ref`, over the method `ptr` of the storage.
unfoldable pub default_as_ref :
    {S : Type 0} → (ℕ → S → Place) → (ℕ → S → Exec Ptr) → RustType → ℕ → S → Exec Ptr
unfolding deref_as
default_as_ref place ptr T self s = do p ← ptr self s; deref_as T (place self s) p

-- The provided body of `Storage::as_mut`, over the method `ptr_mut` of the storage.
unfoldable pub default_as_mut :
    {S : Type 0} → (ℕ → S → Place) → (ℕ → S → Exec Ptr) → RustType → ℕ → S → Exec Ptr
unfolding deref_as
default_as_mut place ptr_mut T self s = do p ← ptr_mut self s; deref_as T (place self s) p

-- The provided body of `Storage::as_pinned_mut`: pinning is a promise of the caller.
abbrev pub as_pinned_mut : {S : Type 0} → Storage S → RustType → ℕ → S → Exec Ptr
as_pinned_mut st T self s = st.as_mut T self s

-- An address at which a storage can lie.
abbrev pub IsPlace : {S : Type 0} → Storage S → ℕ → Type 0
IsPlace st self = (self ≢ 0) × (self % st.place_align ≡ 0)

-- What a construction does to the blocks that were live before it: they stay as they are, and none
-- of them is the one that the new storage owns.
abbrev pub IsFresh : Option ℕ → Heap → Heap → Type 0
IsFresh owned h h' =
    (a : ℕ) (b : Block) → find a h.blocks ≡ some b → (find a h'.blocks ≡ some b) × (owned ≢ some a)

-- What a storage promises for values of a type that it accepts: one slot, whose value every
-- accessor leads to, that frees what it owns, and that depends on no other block.
pub record IsStorage {S : Type 0} (st : Storage S) (T : RustType) : Type 1 where
  pub Stores : Bytes → S → List Block → Type 0
  pub owned : S → Option ℕ
  pub new_lem :
      (v : Bytes) (h : Heap)
      → length v ≡ T.size
      → Returns
          (λ s h'. Stores v s h'.blocks × (release (owned s) h' ≡ h) × IsFresh (owned s) h h')
          (st.new T v h)
  pub access :
      (v : Bytes) (s : S) (h : Heap) (self : ℕ)
      → Stores v s h.blocks
      → IsPlace st self
      → (p : Ptr) × (st.ptr self s h ≡ ok p h)
        × (st.ptr_mut self s h ≡ ok p h)
        × (st.as_ref T self s h ≡ ok p h)
        × (st.as_mut T self s h ≡ ok p h)
        × (load T (st.place self s) p h ≡ some v)
  pub write_lem :
      (v w : Bytes) (s : S) (h : Heap) (self : ℕ) (p : Ptr)
      → Stores v s h.blocks
      → IsPlace st self
      → length w ≡ T.size
      → st.as_mut T self s h ≡ ok p h
      → Returns
          (λ c h'.
            Stores w (st.with_cells s c) h'.blocks
            × (owned (st.with_cells s c) ≡ owned s)
            × (release (owned s) h' ≡ release (owned s) h))
          (write_ref T (st.place self s) p w h)
  pub drop_lem :
      (v : Bytes) (s : S) (h : Heap)
      → Stores v s h.blocks
      → st.drop_in_place s (layout_of T) h ≡ ok tt (release (owned s) h)
  pub live :
      (v : Bytes) (s : S) (bs : List Block) (a : ℕ)
      → Stores v s bs
      → owned s ≡ some a
      → (b : Block) × (find a bs ≡ some b)
  pub frame :
      (v : Bytes) (s : S) (bs bs' : List Block)
      → Stores v s bs
      → ((a : ℕ) (b : Block) → owned s ≡ some a → find a bs ≡ some b → find a bs' ≡ some b)
      → Stores v s bs'

-- What the construction from a box promises: the storage takes the value over, and with it what
-- the box owned, or frees that.
pub record IsFromBox {S : Type 0} {st : Storage S} {T : RustType} (fb : FromBox S)
    (law : IsStorage st T) : Type 1 where
  pub from_box_lem :
      (v : Bytes) (a : ℕ) (h : Heap)
      → length v ≡ T.size
      → Fits T a
      → Boxed T v a h.blocks
      → Returns
          (λ s h'.
            law.Stores v s h'.blocks × (release (law.owned s) h' ≡ release (owned_by_box T a) h))
          (fb.from_box T a h)

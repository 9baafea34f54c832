-- ===== src/Memory/Allocation.antt =====
-- Types by what the crate asks of them, layouts, the heap, and computations that use it.
use dyn_utils.Prelude.{
  ℕ, ◌%◌, ◌^◌, ◌≡◌, refl, ◌≢◌, Bool, Option, none, some, List, [], ◌∷◌, arith, ◌==◌, ◌&&◌,
  if◌then◌else◌, ==-refl,
}
use dyn_utils.Memory.Contents.{Bytes, Cells, init_cells}

-- A concrete type as generic code sees it: `size_of`, `align_of` (a power of two, given by its
-- exponent), `needs_drop` and its `TypeId`.
pub record RustType : Type 0 where
  pub size : ℕ
  pub align_exp : ℕ
  pub needs_drop : Bool
  pub type_id : ℕ

abbrev pub align_of : RustType → ℕ
align_of T = 2 ^ T.align_exp

-- `core::alloc::Layout`.
pub record Layout : Type 0 where
  pub size : ℕ
  pub align : ℕ

-- `Layout::new::<T>()`.
abbrev pub layout_of : RustType → Layout
layout_of T = record { size = T.size; align = align_of T }

-- A live allocation.
pub record Block : Type 0 where
  pub addr : ℕ
  pub layout : Layout
  pub cells : Cells

-- The run of a destructor, with the type and the value that it was run on.
pub data Event : Type 0 where
  dropped : RustType → Bytes → Event

pub record Heap : Type 0 where
  pub blocks : List Block
  pub log : List Event

unfoldable pub find : ℕ → List Block → Option Block
find a [] = none
find a (b ∷ bs) = if b.addr == a then some b else find a bs

-- The blocks less the one at an address.
unfoldable pub without : ℕ → List Block → List Block
without a [] = []
without a (b ∷ bs) = if b.addr == a then bs else b ∷ without a bs

unfoldable pub replace : ℕ → Cells → List Block → List Block
replace a cells [] = []
replace a cells (b ∷ bs) =
    if b.addr == a then record b { cells = cells } ∷ bs else b ∷ replace a cells bs

-- How a call can fail: undefined behaviour, a panic, or a constant assertion that stops the build.
pub data Fault : Type 0 where
  undefined_behaviour panicked build_error : Fault

pub data Outcome (A : Type 0) : Type 0 where
  ok : A → Heap → Outcome A
  fault : Fault → Outcome A

abbrev pub Exec : Type 0 → Type 0
Exec A = Heap → Outcome A

abbrev pub pure : {A : Type 0} → A → Exec A
pure = ok

abbrev pub raise : {A : Type 0} → Fault → Exec A
raise f h = fault f

module _ {A B : Type 0} where
  abbrev pub and_then : Outcome A → (A → Exec B) → Outcome B
  and_then (ok a h) k = k a h
  and_then (fault f) k = fault f

  infixl 5 ◌>>=◌ ◌>>◌
  abbrev pub ◌>>=◌ : Exec A → (A → Exec B) → Exec B
  m >>= k = λ h. and_then (m h) k

  abbrev pub ◌>>◌ : Exec A → Exec B → Exec B
  m >> n = m >>= λ _. n

abbrev pub log_event : Event → Exec (Unit {0})
log_event e h = ok tt (record h { log = e ∷ h.log })

-- The global allocator's choice of addresses, as `GlobalAlloc` documents it: not null, aligned to
-- the layout, and at no live block. Running out of memory aborts the process inside the standard
-- library and is left out.
pub record Allocator : Type 0 where
  pub address_for : List Block → Layout → ℕ
  pub nonnull : (bs : List Block) (l : Layout) → address_for bs l ≢ 0
  pub aligned : (bs : List Block) (l : Layout) → l.align ≢ 0 → address_for bs l % l.align ≡ 0
  pub fresh : (bs : List Block) (l : Layout) → find (address_for bs l) bs ≡ none

-- `Box::new` followed by `Box::into_raw`: no allocation for a type of size 0, whose box dangles at
-- the type's alignment.
unfoldable pub box_new : Allocator → RustType → Bytes → Exec ℕ
box_new al T v h =
    if T.size == 0
    then ok (align_of T) h
    else (let a = al.address_for h.blocks (layout_of T) in
        let b : Block = record { addr = a; layout = layout_of T; cells = init_cells v } in
        ok a (record h { blocks = b ∷ h.blocks }))

-- The block at an address is given back.
abbrev pub free_block : ℕ → Heap → Heap
free_block a h = record h { blocks = without a h.blocks }

-- `alloc::dealloc`: undefined unless the address is that of a live block with this very layout.
unfoldable pub dealloc : ℕ → Layout → Exec (Unit {0})
dealloc a l h = elim (find a h.blocks) [
  | none ↦ fault undefined_behaviour
  | some b ↦
      if b.layout.size == l.size && b.layout.align == l.align
      then ok tt (free_block a h)
      else fault undefined_behaviour
]

pub without-head : (b : Block) (bs : List Block) → without b.addr (b ∷ bs) ≡ bs
unfolding without
without-head b bs = rw (==-refl b.addr)

pub find-head : (b : Block) (bs : List Block) → find b.addr (b ∷ bs) ≡ some b
unfolding find
find-head b bs = rw (==-refl b.addr)

pub find-replace :
    (a : ℕ) (c : Cells) (bs : List Block) (b : Block)
    → find a bs ≡ some b
    → find a (replace a c bs) ≡ some (record b { cells = c })
unfolding find replace
find-replace a c [] b h = cc
find-replace a c (x ∷ bs) b h = ground (arith, find-replace a c bs b)

pub without-replace :
    (a : ℕ) (c : Cells) (bs : List Block) → without a (replace a c bs) ≡ without a bs
unfolding without replace
without-replace a c [] = refl
without-replace a c (b ∷ bs) = ground (arith, without-replace a c bs)

pub find-without : (a k : ℕ) (bs : List Block) → a ≢ k → find k (without a bs) ≡ find k bs
unfolding find without
find-without a k [] ne = refl
find-without a k (b ∷ bs) ne = ground (arith, find-without a k bs ne)

pub without_comm : (a k : ℕ) (bs : List Block) → without a (without k bs) ≡ without k (without a bs)
unfolding without
without_comm a k [] = refl
without_comm a k (b ∷ bs) = ground (arith, without_comm a k bs)

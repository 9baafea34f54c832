-- ===== src/Memory/Boxes.antt =====
-- The boxes of the standard library, as raw pointers.
use dyn_utils.Prelude.{
  ℕ, ◌≡◌, ◌≢◌, refl, ap, Option, none, some, List, [], arith, ◌==◌, length, if◌then◌else◌,
  ==-false_of_ne,
}
use dyn_utils.Memory.Contents.{Bytes, read_cells}
use dyn_utils.Memory.Allocation.{RustType, layout_of, Block, Heap, ok, find, without, without_comm}
use dyn_utils.Memory.Access.{block_at, nowhere, load, unbox}
use dyn_utils.Memory.Laws.{Fits, load-cells, load-zst, dealloc-ok, read_ref-ok}

-- The live block of a box of a type with a size
pub record Holds (T : RustType) (v : Bytes) (a : ℕ) (bs : List Block) (b : Block) : Type 0 where
  pub found : find a bs ≡ some b
  pub layout : b.layout ≡ layout_of T
  pub reads : read_cells T.size b.cells ≡ some v
  pub room : length b.cells ≡ T.size

-- A box of a type of size 0 dangles; any other owns a block with the layout of its type
pub data Boxed (T : RustType) (v : Bytes) (a : ℕ) (bs : List Block) : Type 0 where
  dangling : T.size ≡ 0 → v ≡ [] → Boxed T v a bs
  allocated : T.size ≢ 0 → (b : Block) → Holds T v a bs b → Boxed T v a bs

-- What a box owns.
abbrev pub owned_by_box : RustType → ℕ → Option ℕ
owned_by_box T a = if T.size == 0 then none else some a

abbrev pub blocks_less : Option ℕ → List Block → List Block
blocks_less none bs = bs
blocks_less (some a) bs = without a bs

-- The heap less the block that something owns.
abbrev pub release : Option ℕ → Heap → Heap
release owned h = record h { blocks = blocks_less owned h.blocks }

pub load-Boxed :
    (T : RustType) (v : Bytes) (a : ℕ) (h : Heap)
    → Fits T a
    → Boxed T v a h.blocks
    → load T nowhere (block_at a) h ≡ some v
load-Boxed T v a h f (dangling zst e) = rw e (load-zst T nowhere (block_at a) h f zst)
load-Boxed T v a h f (allocated sized b holds) =
    load-cells T nowhere (block_at a) h b.cells v f (ground arith) holds.reads

-- Moving the value out of a box gives its value and frees its block.
pub unbox_lem :
    (T : RustType) (v : Bytes) (a : ℕ) (h : Heap)
    → Fits T a
    → Boxed T v a h.blocks
    → unbox T a h ≡ ok v (release (owned_by_box T a) h)
unfolding unbox
unbox_lem T v a h f (dangling zst e) =
    rw (read_ref-ok T nowhere (block_at a) h v (load-Boxed T v a h f (dangling zst e)), zst) refl
unbox_lem T v a h f (allocated sized b holds) =
    rw
      (
        read_ref-ok T nowhere (block_at a) h v (load-Boxed T v a h f (allocated sized b holds)),
        ==-false_of_ne T.size 0 sized,
        dealloc-ok a (layout_of T) h b holds.found holds.layout,
      )
      refl

pub release_comm : (o k : Option ℕ) (h : Heap) → release o (release k h) ≡ release k (release o h)
release_comm none k h = refl
release_comm (some a) none h = refl
release_comm (some a) (some b) h = ap (λ bs. record h { blocks = bs }) (without_comm a b h.blocks)

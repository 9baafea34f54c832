-- ===== src/Memory/Laws.antt =====
-- Typed reads and writes at addresses that fit the type.
use native.Mathlib.Nat.{one-le-pow, mod-eq-zero_of_dvd, dvd_refl}
use dyn_utils.Prelude.{
  ℕ, zero, suc, ◌%◌, ◌≤◌, ◌≡◌, refl, ◌≢◌, true, some, arith, ◌==◌, subst, ==-false_of_ne, length,
  if◌then◌else◌, Bool-cases, inl, inr, [], ◌∷◌,
}
use dyn_utils.Memory.Contents.{Bytes, Cells, read_cells, write_cells_lem}
use dyn_utils.Memory.Allocation.{
  RustType, align_of, Layout, Block, find, replace, Heap, ok, dealloc, free_block,
}
use dyn_utils.Memory.Access.{
  Ptr, inline_at, block_at, address, Place, cells_at, is_valid_for, load, store, store_cells,
  write_ref, read_ref,
}

-- What a pointer to a `T` must satisfy.
pub record Fits (T : RustType) (a : ℕ) : Type 0 where
  pub ne_null : a ≢ 0
  pub aligned : a % align_of T ≡ 0

Fits-is_valid : (T : RustType) (p : Ptr) → Fits T (address p) → is_valid_for T p ≡ true
Fits-is_valid T p f = rw (==-false_of_ne (address p) 0 f.ne_null, f.aligned) refl

pub align_of_ne_zero : (T : RustType) → align_of T ≢ 0
align_of_ne_zero T = omega (arith, one-le-pow T.align_exp 2 (omega arith))

pub mod_self : (n : ℕ) → n % n ≡ 0
mod_self n = mod-eq-zero_of_dvd n (dvd_refl n)

-- A read of a type with a size finds the bytes in the cells that the pointer leads to.
pub load-cells :
    (T : RustType) (place : Place) (p : Ptr) (h : Heap) (c : Cells) (v : Bytes)
    → Fits T (address p)
    → cells_at place p h ≡ some c
    → read_cells T.size c ≡ some v
    → load T place p h ≡ some v
unfolding load read_cells
load-cells T place p h c v f at got = rw (Fits-is_valid T p f, at) (sized T.size refl)
  where
    sized : (n : ℕ) → T.size ≡ n → (if T.size == 0 then some [] else read_cells T.size c) ≡ some v
    sized zero e = rw (e) (rw e at got)
    sized (suc n) e = rw (==-false_of_ne T.size 0 (omega arith)) got

-- A value of size 0 is read from any pointer that fits.
pub load-zst :
    (T : RustType) (place : Place) (p : Ptr) (h : Heap)
    → Fits T (address p)
    → T.size ≡ 0
    → load T place p h ≡ some []
unfolding load
load-zst T place p h f zst = rw (Fits-is_valid T p f, zst) refl

pub write_ref-zst :
    (T : RustType) (place : Place) (p : Ptr) (w : Bytes) (h : Heap)
    → Fits T (address p)
    → T.size ≡ 0
    → write_ref T place p w h ≡ ok place.cells h
unfolding write_ref store
write_ref-zst T place p w h f zst = ground (arith, Fits-is_valid T p f)

-- A write through an inline pointer succeeds, can be read back, and leaves the heap alone.
pub write_ref-inline :
    (T : RustType) (place : Place) (w : Bytes) (h : Heap)
    → Fits T place.at
    → length w ≡ T.size
    → T.size ≤ length place.cells
    → (c : Cells) × (write_ref T place (inline_at place.at) w h ≡ ok c h)
      × (read_cells T.size c ≡ some w)
      × (length c ≡ length place.cells)
unfolding write_ref store store_cells
write_ref-inline T place w h f len room = elim (Bool-cases (T.size == 0)) [
  | inl zst ↦
      let zero_size : T.size ≡ 0 = ground arith in
      (
        place.cells,
        ground (arith, Fits-is_valid T (inline_at place.at) f),
        rw zero_size (read-nothing w place.cells (omega arith)),
        refl,
      )
  | inr sized ↦
      let (c, wrote, reads, same) = write_cells_lem w place.cells (omega arith) in
      (
        c,
        ground (arith, Fits-is_valid T (inline_at place.at) f, wrote),
        subst (λ n. read_cells n c ≡ some w) len reads,
        same,
      )
]
  where
    read-nothing : (w : Bytes) (cells : Cells) → length w ≡ 0 → read_cells 0 cells ≡ some w
    read-nothing [] cells e = unfold read_cells in refl
    read-nothing (b ∷ w) cells e = absurd (omega arith)

-- A write through a pointer to a block replaces the contents of that block.
pub write_ref-block :
    (T : RustType) (place : Place) (a : ℕ) (w : Bytes) (h : Heap) (b : Block)
    → Fits T a
    → T.size ≢ 0
    → length w ≡ T.size
    → find a h.blocks ≡ some b
    → T.size ≤ length b.cells
    → (c : Cells) × (write_ref T place (block_at a) w h
        ≡ ok place.cells (record h { blocks = replace a c h.blocks }))
      × (read_cells T.size c ≡ some w)
      × (length c ≡ length b.cells)
unfolding write_ref store store_cells
write_ref-block T place a w h b f sized len found room =
    let (c, wrote, reads, same) = write_cells_lem w b.cells (omega arith) in
    (
      c,
      ground (arith, Fits-is_valid T (block_at a) f, wrote),
      subst (λ n. read_cells n c ≡ some w) len reads,
      same,
    )

pub dealloc-ok :
    (a : ℕ) (l : Layout) (h : Heap) (b : Block)
    → find a h.blocks ≡ some b
    → b.layout ≡ l
    → dealloc a l h ≡ ok tt (free_block a h)
unfolding dealloc
dealloc-ok a l h b found same = ground arith

pub read_ref-ok :
    (T : RustType) (place : Place) (p : Ptr) (h : Heap) (v : Bytes)
    → load T place p h ≡ some v
    → read_ref T place p h ≡ ok v h
unfolding read_ref
read_ref-ok T place p h v e = ground arith

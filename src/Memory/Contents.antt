-- ===== src/Memory/Contents.antt =====
-- Bytes and the cells that hold them: `MaybeUninit<u8>` is a byte or nothing.
use dyn_utils.Prelude.{
  ℕ, zero, suc, ◌≤◌, ◌≡◌, refl, ap, Option, none, some, List, [], ◌∷◌, map, arith, leb, leb_of_le,
  if◌then◌else◌, length, length-map, replicate,
}
use mathlib.Core.Option

-- The bytes of a value.
abbrev pub Bytes : Type 0
Bytes = List ℕ

abbrev pub Cells : Type 0
Cells = List (Option ℕ)

abbrev pub uninit : ℕ → Cells
uninit n = replicate n none

abbrev pub init_cells : Bytes → Cells
init_cells v = map some v

-- The first `n` cells as a value: they must be there and hold bytes.
unfoldable pub read_cells : ℕ → Cells → Option Bytes
read_cells zero cells = some []
read_cells (suc n) [] = none
read_cells (suc n) (none ∷ cells) = none
read_cells (suc n) (some b ∷ cells) = Option.map (λ v. b ∷ v) (read_cells n cells)

-- A value over the first cells.
overwrite : Bytes → Cells → Cells
overwrite [] cells = cells
overwrite (b ∷ v) [] = []
overwrite (b ∷ v) (c ∷ cells) = some b ∷ overwrite v cells

-- A write out of bounds is refused.
unfoldable pub write_cells : Bytes → Cells → Option Cells
unfolding overwrite
write_cells v cells = if leb (length v) (length cells) then some (overwrite v cells) else none

read-overwrite :
    (v : Bytes) (cells : Cells)
    → length v ≤ length cells
    → read_cells (length v) (overwrite v cells) ≡ some v
unfolding read_cells overwrite
read-overwrite [] cells h = refl
read-overwrite (b ∷ v) [] h = elim h [ ]
read-overwrite (b ∷ v) (c ∷ cells) h = rw (read-overwrite v cells (omega arith))

length-overwrite : (v : Bytes) (cells : Cells) → length (overwrite v cells) ≡ length cells
unfolding overwrite
length-overwrite [] cells = refl
length-overwrite (b ∷ v) [] = refl
length-overwrite (b ∷ v) (c ∷ cells) = ap suc (length-overwrite v cells)

-- A write in bounds succeeds, can be read back, and keeps the number of cells.
pub write_cells_lem :
    (v : Bytes) (cells : Cells)
    → length v ≤ length cells
    → (after : Cells) × (write_cells v cells ≡ some after)
      × (read_cells (length v) after ≡ some v)
      × (length after ≡ length cells)
unfolding write_cells
write_cells_lem v cells h =
    (overwrite v cells, rw (leb_of_le _ _ h), read-overwrite v cells h, length-overwrite v cells)

pub read-init_cells : (v : Bytes) → read_cells (length v) (init_cells v) ≡ some v
unfolding read_cells
read-init_cells [] = refl
read-init_cells (b ∷ v) = rw (read-init_cells v)

pub length-init_cells : (v : Bytes) → length (init_cells v) ≡ length v
length-init_cells v = length-map v some

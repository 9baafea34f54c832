-- ===== src/Tests/Inputs.antt =====
-- An allocator, types and storages for the tests.
use native.Mathlib.Nat.{mod-eq-zero_of_dvd, dvd-mul_left}
use dyn_utils.Prelude.{
  ℕ, suc, ◌+◌, ◌-◌, ◌*◌, ◌%◌, ◌<◌, ◌≡◌, ◌≢◌, refl, true, false, none, List, [], ◌∷◌, arith,
}
use dyn_utils.Memory.{Bytes, RustType, Layout, Block, Heap, Allocator, find}
use dyn_utils.Storage.{Storage}
use dyn_utils.Storage.Raw.{Params}
use dyn_utils.Storage.RawOrBox.{RawOrBox, Variant, raw_or_box_storage}

abbrev pub sum_addresses : List Block → ℕ
sum_addresses [] = 0
sum_addresses (b ∷ bs) = b.addr + sum_addresses bs

find-above : (a : ℕ) (bs : List Block) → sum_addresses bs < a → find a bs ≡ none
unfolding find
find-above a [] h = refl
find-above a (b ∷ bs) h = ground (arith, find-above a bs)

-- the multiple of the alignment that lies above every live block
abbrev pub bump_address : List Block → Layout → ℕ
bump_address bs l = suc (sum_addresses bs) * suc (l.align - 1)

pub bump_nonnull : (bs : List Block) (l : Layout) → bump_address bs l ≢ 0
bump_nonnull bs l = grind arith

pub bump_aligned : (bs : List Block) (l : Layout) → l.align ≢ 0 → bump_address bs l % l.align ≡ 0
bump_aligned bs l ne =
    let e : suc (l.align - 1) ≡ l.align = omega arith in
    rw e (mod-eq-zero_of_dvd l.align (dvd-mul_left l.align (suc (sum_addresses bs))))

pub bump_fresh : (bs : List Block) (l : Layout) → find (bump_address bs l) bs ≡ none
bump_fresh bs l = find-above (bump_address bs l) bs (grind arith)

abbrev pub bump : Allocator
bump = record {
  address_for = bump_address;
  nonnull = bump_nonnull;
  aligned = bump_aligned;
  fresh = bump_fresh;
}

abbrev pub empty_heap : Heap
empty_heap = record { blocks = []; log = [] }

-- `u8` with a destructor, `[u8; 3]`, `u64`, and a type of size 0 with a destructor
abbrev pub byte : RustType
byte = record { size = 1; align_exp = 0; needs_drop = true; type_id = 1 }

abbrev pub triple : RustType
triple = record { size = 3; align_exp = 0; needs_drop = false; type_id = 2 }

abbrev pub word : RustType
word = record { size = 8; align_exp = 3; needs_drop = true; type_id = 3 }

abbrev pub token : RustType
token = record { size = 0; align_exp = 0; needs_drop = true; type_id = 4 }

abbrev pub word_bytes : Bytes
word_bytes = 1 ∷ 2 ∷ 3 ∷ 4 ∷ 5 ∷ 6 ∷ 7 ∷ 8 ∷ []

-- `Raw<4, 2>`
abbrev pub small : Params
small = record { size = 4; align_exp = 1 }

abbrev pub variant : Variant small
variant = record { offset = 2; aligned = refl }

abbrev pub raw_or_box : Storage RawOrBox
unfolding raw_or_box_storage
raw_or_box = raw_or_box_storage bump variant

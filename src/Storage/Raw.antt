-- ===== src/Storage/Raw.antt =====
-- `Raw<SIZE, ALIGN>` of src/storage.rs: the data lies in the storage.
pub mod Laws
use dyn_utils.Prelude.{
  ℕ, ◌+◌, ◌%◌, ◌^◌, Bool, true, false, none, some, ◌==◌, ◌&&◌, not, leb, if◌then◌else◌,
}
use dyn_utils.Memory.{
  Bytes, Cells, uninit, write_cells, RustType, align_of, Layout, Heap, undefined_behaviour,
  panicked, build_error, Exec, ok, fault, pure, raise, ◌>>=◌, Ptr, inline_at, Place,
}
use dyn_utils.Storage.Trait.{Storage, default_as_ref, default_as_mut}

-- The generic parameters: `ALIGN`, a power of two by the bound `Align<ALIGN>: Alignment`, is given
-- by its exponent.
pub record Params : Type 0 where
  pub size : ℕ
  pub align_exp : ℕ

abbrev pub align : Params → ℕ
align P = 2 ^ P.align_exp

-- `repr(C)` puts `data` at the address of the struct, and `_align` makes that a multiple of `ALIGN`.
pub record Raw : Type 0 where
  pub data_cells : Cells

unfoldable pub can_store : Params → RustType → Bool
can_store P T = leb T.size P.size && leb (align_of T) (align P)

-- The write is undefined unless the type fits into the array, and every multiple of `ALIGN` is
-- aligned for it.
unfoldable pub new_unchecked : Params → RustType → Bytes → Exec Raw
new_unchecked P T v h =
    if (align P % align_of T) == 0
    then elim (write_cells v (uninit P.size)) [
      | none ↦ fault undefined_behaviour
      | some c ↦ ok (record { data_cells = c }) h
    ]
    else fault undefined_behaviour

-- The assertion is evaluated when the program is built.
unfoldable pub new : Params → RustType → Bytes → Exec Raw
unfolding can_store new_unchecked
new P T v = if can_store P T then new_unchecked P T v else raise build_error

unfoldable pub ptr : ℕ → Raw → Exec Ptr
ptr self s = if self == 0 then raise panicked else pure (inline_at self)

unfoldable pub ptr_mut : ℕ → Raw → Exec Ptr
ptr_mut self s = pure (inline_at self)

unfoldable pub drop_in_place : Raw → Layout → Exec (Unit {0})
drop_in_place s layout = pure tt

abbrev pub place : ℕ → Raw → Place
place self s = record { at = self; cells = s.data_cells }

unfoldable pub raw_storage : Params → Storage Raw
unfolding new ptr ptr_mut drop_in_place default_as_ref default_as_mut
raw_storage P = record {
  place_align = align P;
  place = place;
  with_cells = λ s c. record { data_cells = c };
  new = new P;
  ptr = ptr;
  ptr_mut = ptr_mut;
  as_ref = default_as_ref place ptr;
  as_mut = default_as_mut place ptr_mut;
  drop_in_place = drop_in_place;
}

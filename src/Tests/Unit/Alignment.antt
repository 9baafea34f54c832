-- ===== src/Tests/Unit/Alignment.antt =====
-- The unit test of src/storage.rs on the alignment of `Raw`.
use native.Mathlib.Nat.{one-le-pow}
use dyn_utils.Prelude.{
  ℕ, ◌+◌, ◌%◌, ◌^◌, ◌<◌, ◌≡◌, ◌≢◌, Bool, true, false, not, ◌==◌, ◌||◌, leb, leb_of_le, aligned_pow,
  ==-false_of_ne, [], arith,
}
use dyn_utils.Memory.{write_cells, Exec, Heap, Ptr, address, ok, ◌>>=◌, ◌>>◌}
use dyn_utils.Storage.Raw
use dyn_utils.Storage.Raw.{Params, can_store, new_unchecked, raw_storage}
use dyn_utils.Object.{new, drop, drop_inner, drop_in_place_fn}
use dyn_utils.Tests.Unit.{assert}
use dyn_utils.Tests.Unit.Storages.{dyn_test, test_vtable, unit_type}

abbrev is_aligned : ℕ → Ptr → Bool
is_aligned align p = (address p % align) == 0

-- Two objects of `()` in an array, the first at `self` and the second one stride after it, as the
-- compiler places them.
unfoldable check_alignment : ℕ → ℕ → ℕ → Exec (Unit {0})
unfolding new drop
check_alignment align_exp self stride = do
  let st = raw_storage record { size = 0; align_exp = align_exp }
  first ← new st (test_vtable unit_type) unit_type []
  second ← new st (test_vtable unit_type) unit_type []
  p ← st.ptr self first.storage
  assert (is_aligned (2 ^ align_exp) p)
  q ← st.ptr (self + stride) second.storage
  assert (is_aligned (2 ^ align_exp) q)
  assert (not (leb 2048 (2 ^ align_exp)))
  assert (not (is_aligned 2048 p) || not (is_aligned 2048 q))
  drop st dyn_test self first
  drop st dyn_test (self + stride) second

one_unaligned :
    (a stride : ℕ)
    → stride % 2048 ≢ 0
    → (not (a % 2048 == 0) || not ((a + stride) % 2048 == 0)) ≡ true
one_unaligned a stride apart = ground arith

-- Wherever the array lies, if its elements are aligned and not a multiple of 2048 bytes apart, the
-- test passes.
raw_alignment :
    (align_exp self stride : ℕ) (h : Heap)
    → 2 ^ align_exp < 2048
    → self ≢ 0
    → self % (2 ^ align_exp) ≡ 0
    → (self + stride) % (2 ^ align_exp) ≡ 0
    → stride % 2048 ≢ 0
    → check_alignment align_exp self stride h ≡ ok tt h
unfolding check_alignment raw_storage Raw.new can_store new_unchecked drop_in_place_fn drop_inner
    write_cells
raw_alignment align_exp self stride h small present first second apart =
    let fits : leb 2048 (2 ^ align_exp) ≡ false = ground arith in
    simp (
      leb_of_le 1 (2 ^ align_exp) (one-le-pow align_exp 2 (omega arith)),
      aligned_pow 0 align_exp (one-le-pow align_exp 2 (omega arith)),
      ==-false_of_ne self 0 present,
      first,
      ==-false_of_ne (self + stride) 0 (omega arith),
      second,
      fits,
      one_unaligned self stride apart,
    )

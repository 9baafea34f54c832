-- ===== src/Storage/Default.antt =====
-- `DefaultStorage` of src/storage.rs, with the feature `alloc` and without it.
pub mod Laws
use dyn_utils.Prelude.{ℕ, ◌*◌}
use dyn_utils.Storage.Raw.{Params}

-- The parameters of `RawOrBox`, where a `usize` has `usize_size` bytes and the alignment
-- 2 ^ `usize_align_exp`.
abbrev pub default_params : ℕ → ℕ → Params
default_params usize_size usize_align_exp = record {
  size = 128 * usize_size;
  align_exp = usize_align_exp;
}

-- ===== src/Object/Call.antt =====
-- Calls of the methods of the stored type through its storage, as the functions in a vtable make
-- them. A method of the stored type is a function of its bytes.
pub mod Laws
use dyn_utils.Prelude.{ℕ}
use dyn_utils.Memory.{Bytes, RustType, Exec, pure, ◌>>=◌, Ptr, read_ref, write_ref}
use dyn_utils.Storage.{Storage}

module _ {S A : Type 0} (st : Storage S) (T : RustType) where
  -- A method on `&self`, behind `Storage::as_ref`.
  unfoldable pub call_ref : (Bytes → A) → ℕ → S → Exec A
  call_ref method self s = do
    p ← st.as_ref T self s
    v ← read_ref T (st.place self s) p
    pure (method v)

  -- A method on `&mut self`, behind a mutable reference: `Storage::as_mut` or `as_pinned_mut`. It
  -- leaves new bytes in place of the old.
  unfoldable pub call_mut :
      (RustType → ℕ → S → Exec Ptr) → (Bytes → Bytes × A) → ℕ → S → Exec (S × A)
  call_mut as_mut method self s = do
    p ← as_mut T self s
    v ← read_ref T (st.place self s) p
    cells ← write_ref T (st.place self s) p (method v).0
    pure (st.with_cells s cells, (method v).1)

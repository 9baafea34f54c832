-- ===== src/Future.antt =====
-- The objects of `dyn Future` of src/impls.rs; those of `dyn Future + Send` are in Send. A function
-- pointer that is transmuted to `unsafe fn()` and back to its own type is itself.
pub mod Laws
pub mod Completion
pub mod Send
use dyn_utils.Prelude.{ℕ, Option, List, [], ◌∷◌, length, ◌≡◌}
use dyn_utils.Memory.{Bytes, RustType, Layout, layout_of, Exec, pure, ◌>>=◌}
use dyn_utils.Storage.{Storage, as_pinned_mut}
use dyn_utils.Object.{DropFn, drop_in_place_fn, DynTrait, DynObject}
use dyn_utils.Object.Call.{call_mut}

-- `core::task::Poll`.
pub data Poll (Out : Type 0) : Type 0 where
  ready : Out → Poll Out
  pending : Poll Out

-- A type that implements `Future`: what `poll` does to its bytes, and what it answers.
pub record IsFuture (T : RustType) (Cx Out : Type 0) : Type 0 where
  pub poll : Cx → Bytes → Bytes × Poll Out
  pub sized : (cx : Cx) (v : Bytes) → length v ≡ T.size → length (poll cx v).0 ≡ T.size

pub record FutureVtable (S Cx Out : Type 0) : Type 0 where
  pub drop_fn : Option DropFn
  pub layout : Layout
  pub poll : ℕ → S → Cx → Exec (S × Poll Out)

module _ {S Cx Out : Type 0} where
  abbrev pub dyn_future : DynTrait (FutureVtable S Cx Out)
  dyn_future = record { vtable_drop = λ vt. vt.drop_fn; vtable_layout = λ vt. vt.layout }

  unfoldable pub future_vtable :
      Storage S → (T : RustType) → IsFuture T Cx Out → FutureVtable S Cx Out
  future_vtable st T impl = record {
    drop_fn = drop_in_place_fn T;
    layout = layout_of T;
    poll = λ self s cx. call_mut st T (as_pinned_mut st) (impl.poll cx) self s;
  }

  -- `Future::poll` of the object.
  unfoldable pub poll :
      ℕ
      → DynObject S (FutureVtable S Cx Out)
      → Cx
      → Exec (DynObject S (FutureVtable S Cx Out) × Poll Out)
  poll self obj cx = do
    (s, answer) ← obj.vtable.poll self obj.storage cx
    pure (record obj { storage = s }, answer)

  -- An executor that polls once for each context.
  unfoldable pub poll_all :
      ℕ
      → DynObject S (FutureVtable S Cx Out)
      → List Cx
      → Exec (DynObject S (FutureVtable S Cx Out) × List (Poll Out))
  poll_all self obj [] = pure (obj, [])
  poll_all self obj (cx ∷ cxs) = do
    (obj, answer) ← poll self obj cx
    (obj, answers) ← poll_all self obj cxs
    pure (obj, answer ∷ answers)

-- ===== src/Future/Send.antt =====
-- The objects of `dyn Future + Send` of src/impls.rs, written out a second time there.
use dyn_utils.Prelude.{ℕ, ◌≡◌, refl}
use dyn_utils.Memory.{RustType, layout_of, Exec, pure, ◌>>=◌}
use dyn_utils.Storage.{Storage, as_pinned_mut}
use dyn_utils.Object.{drop_in_place_fn, DynTrait, DynObject}
use dyn_utils.Object.Call.{call_mut}
use dyn_utils.Future
use dyn_utils.Future.{Poll, IsFuture, FutureVtable, dyn_future, future_vtable}

module _ {S Cx Out : Type 0} where
  abbrev pub dyn_future_send : DynTrait (FutureVtable S Cx Out)
  dyn_future_send = record { vtable_drop = λ vt. vt.drop_fn; vtable_layout = λ vt. vt.layout }

  unfoldable pub future_send_vtable :
      Storage S → (T : RustType) → IsFuture T Cx Out → FutureVtable S Cx Out
  future_send_vtable st T impl = record {
    drop_fn = drop_in_place_fn T;
    layout = layout_of T;
    poll = λ self s cx. call_mut st T (as_pinned_mut st) (impl.poll cx) self s;
  }

  unfoldable pub poll :
      ℕ
      → DynObject S (FutureVtable S Cx Out)
      → Cx
      → Exec (DynObject S (FutureVtable S Cx Out) × Poll Out)
  poll self obj cx = do
    (s, answer) ← obj.vtable.poll self obj.storage cx
    pure (record obj { storage = s }, answer)

  -- The bound `Send` changes nothing at run time, so that what is shown of the one holds of the
  -- other.
  send-same :
      (st : Storage S) (T : RustType) (impl : IsFuture T Cx Out)
      → (dyn_future_send ≡ dyn_future)
        × (future_send_vtable st T impl ≡ future_vtable st T impl)
        × (poll ≡ Future.poll)
  unfolding future_send_vtable poll future_vtable Future.poll
  send-same st T impl = (refl, refl, refl)

-- ===== src/Tests/Unit/Futures.antt =====
-- The unit tests of futures in src/impls.rs and src/lib.rs. They poll by `now_or_never` of the crate
-- `futures`, which is a parameter of the tests.
use dyn_utils.Prelude.{ℕ, ◌≡◌, refl, Option, none, some, List, [], ◌∷◌, ◌==◌, Bool, false}
use dyn_utils.Memory.{
  Bytes, RustType, Exec, ok, fault, panicked, pure, ◌>>=◌, ◌>>◌, read_ref, write_ref, load, store,
  store_cells, read_cells, write_cells,
}
use dyn_utils.Storage.{Storage}
use dyn_utils.Storage.Raw.{can_store, new_unchecked, raw_storage}
use dyn_utils.Storage.RawOrBox.{raw_or_box_storage}
use dyn_utils.Object.{DynObject, drop_in_place_fn, drop_value, new, drop}
use dyn_utils.Object.Call.{call_mut}
use dyn_utils.Future
use dyn_utils.Future.{Poll, ready, pending, IsFuture, FutureVtable, dyn_future, future_vtable}
use dyn_utils.Future.Send
use dyn_utils.Future.Send.{dyn_future_send, future_send_vtable}
use dyn_utils.MaybeSync.{MaybeSync, sync, async, poll, take_sync}
use dyn_utils.Tests.Inputs.{empty_heap}
use dyn_utils.Tests.Unit.{assert, unwrap}
use dyn_utils.Tests.Unit.Objects.{default_storage}

-- `FutureExt::now_or_never` for a type of futures, by their `poll`. It gives what the future has
-- become beside the answer; a future that it takes by value is dropped after that.
abbrev NowOrNever : Type 0 → Type 0
NowOrNever F = (F → Unit {0} → Exec (F × Poll ℕ)) → F → Exec (F × Option ℕ)

-- As documented: one poll, whose output is given if there is one.
abbrev polled_once : {F : Type 0} → NowOrNever F
polled_once poll_one fut = do
  (fut, answer) ← poll_one fut tt
  pure (fut, elim answer [ ready res ↦ some res | pending ↦ none ])

abbrev is_number : ℕ → Option ℕ → Bool
is_number n none = false
is_number n (some m) = m == n

-- The future `async { n }`, which holds `n`.
abbrev holds_number : RustType
holds_number = record { size = 8; align_exp = 3; needs_drop = false; type_id = 5 }

abbrev answers_number : IsFuture holds_number (Unit {0}) ℕ
answers_number = record {
  poll = λ cx v. (v, elim v [ n ∷ rest ↦ ready n | [] ↦ pending ]);
  sized = λ cx v e. e;
}

abbrev number : ℕ → Bytes
number n = n ∷ 0 ∷ 0 ∷ 0 ∷ 0 ∷ 0 ∷ 0 ∷ 0 ∷ []

unfoldable dyn_future_run :
    {S : Type 0}
    → Storage S
    → NowOrNever (DynObject S (FutureVtable S (Unit {0}) ℕ))
    → ℕ
    → Exec (Unit {0})
unfolding new drop future_vtable Future.poll call_mut
dyn_future_run st now_or_never self = do
  future ← new st (future_vtable st holds_number answers_number) holds_number (number 42)
  (future, answer) ← now_or_never (Future.poll self) future
  drop st dyn_future self future
  assert (is_number 42 answer)

unfoldable dyn_future_send_run :
    {S : Type 0}
    → Storage S
    → NowOrNever (DynObject S (FutureVtable S (Unit {0}) ℕ))
    → ℕ
    → Exec (Unit {0})
unfolding new drop future_send_vtable Send.poll call_mut
dyn_future_send_run st now_or_never self = do
  future ← new st (future_send_vtable st holds_number answers_number) holds_number (number 42)
  (future, answer) ← now_or_never (Send.poll self) future
  drop st dyn_future_send self future
  assert (is_number 42 answer)

-- `core::future::Ready`, by the output that it still has.
abbrev poll_ready : Option ℕ → Unit {0} → Exec (Option ℕ × Poll ℕ)
poll_ready fut cx = do res ← unwrap fut; pure (none, ready res)

unfoldable maybe_sync_run :
    NowOrNever (MaybeSync (Option ℕ) ℕ) → List (MaybeSync (Option ℕ) ℕ) → Exec (Unit {0})
unfolding poll
maybe_sync_run now_or_never [] = pure tt
maybe_sync_run now_or_never (maybe_sync ∷ rest) = do
  (_, answer) ← now_or_never (poll poll_ready) maybe_sync
  assert (is_number 42 answer)
  maybe_sync_run now_or_never rest

unfoldable polled_after_completion_run : NowOrNever (MaybeSync (Option ℕ) ℕ) → Exec (Unit {0})
unfolding poll
polled_after_completion_run now_or_never = do
  (maybe_sync, answer) ← now_or_never (poll poll_ready) (sync 42)
  assert (is_number 42 answer)
  _ ← now_or_never (poll poll_ready) maybe_sync
  pure tt

dyn_future_test :
    (dyn_future_run default_storage polled_once 64 empty_heap ≡ ok tt empty_heap)
    × (dyn_future_send_run default_storage polled_once 64 empty_heap ≡ ok tt empty_heap)
unfolding dyn_future_run dyn_future_send_run raw_storage raw_or_box_storage can_store new_unchecked
    write_cells read_cells load read_ref store store_cells write_ref drop_in_place_fn drop_value
dyn_future_test = (refl, refl)

-- The second poll of a `Sync` panics, as the test wants.
maybe_sync_test :
    (maybe_sync_run polled_once (sync 42 ∷ async (some 42) ∷ []) empty_heap ≡ ok tt empty_heap)
    × (polled_after_completion_run polled_once empty_heap ≡ fault panicked)
unfolding maybe_sync_run polled_after_completion_run take_sync
maybe_sync_test = (refl, refl)

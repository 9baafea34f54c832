-- ===== src/MaybeSync.antt =====
-- `MaybeSync` of src/lib.rs: a future that may already have its output.
pub mod Laws
pub mod Paths
use dyn_utils.Prelude.{ℕ, List, [], ◌∷◌, Bool, if◌then◌else◌}
use dyn_utils.Memory.{Exec, undefined_behaviour, panicked, pure, raise, ◌>>=◌}
use dyn_utils.Future.{Poll, ready, pending}

-- `MaybeSync<F>`, where `Out` is the output of `F`.
pub data MaybeSync (F Out : Type 0) : Type 0 where
  sync : Out → MaybeSync F Out
  async : F → MaybeSync F Out
  sync_polled : MaybeSync F Out

module _ {F Out : Type 0} where
  -- The value is moved out and `SyncPolled` left behind. Any other variant is taken to be
  -- unreachable.
  unfoldable pub take_sync : MaybeSync F Out → Exec (MaybeSync F Out × Out)
  take_sync (sync res) = pure (sync_polled, res)
  take_sync (async fut) = raise undefined_behaviour
  take_sync sync_polled = raise undefined_behaviour

module _ {F Cx Out : Type 0} where
  -- `Future::poll`, over that of `F`.
  unfoldable pub poll :
      (F → Cx → Exec (F × Poll Out)) → MaybeSync F Out → Cx → Exec (MaybeSync F Out × Poll Out)
  unfolding take_sync
  poll poll_inner (sync res) cx = do (self, res) ← take_sync (sync res); pure (self, ready res)
  poll poll_inner (async fut) cx = do (fut, answer) ← poll_inner fut cx; pure (async fut, answer)
  poll poll_inner sync_polled cx = raise panicked

-- The body of a method that `dyn_trait` generates for `maybe_sync` (macros/src/dyn_trait.rs): the
-- constant `IS_SYNC`, the call of the synchronous method, and the construction of the object from
-- the call of the asynchronous one. Only one of the two calls is made.
unfoldable pub maybe_sync_block :
    {F Out : Type 0} → Bool → Exec Out → Exec F → Exec (MaybeSync F Out)
maybe_sync_block is_sync call_sync make_object =
    if is_sync
    then (do res ← call_sync; pure (sync res))
    else (do fut ← make_object; pure (async fut))

module _ {G Cx Out : Type 0} where
  -- An executor that polls until it gets an output, at most once for each context.
  unfoldable pub drive : (G → Cx → Exec (G × Poll Out)) → G → List Cx → Exec (G × Poll Out)
  drive poll_one fut [] = pure (fut, pending)
  drive poll_one fut (cx ∷ cxs) = do
    (fut, answer) ← poll_one fut cx
    elim answer [ ready res ↦ pure (fut, ready res) | pending ↦ drive poll_one fut cxs ]

-- ===== src/MaybeSync/Paths.antt =====
-- The synchronous and the asynchronous path of a generated method.
use dyn_utils.Prelude.{ℕ, ◌≡◌, refl, Bool, true, false, if◌then◌else◌, [], ◌∷◌, length}
use dyn_utils.Memory.{Bytes, RustType, Heap, Outcome, Exec, and_then, pure, ◌>>=◌, release}
use dyn_utils.Memory.Returns.{Returns, returns, weaken}
use dyn_utils.Storage.{Storage, IsPlace, IsFresh, IsStorage}
use dyn_utils.Object.{DynObject, new}
use dyn_utils.Future.{Poll, ready, pending, IsFuture, FutureVtable, dyn_future, future_vtable}
use dyn_utils.Future
use dyn_utils.Future.Laws.{poll_lem}
use dyn_utils.MaybeSync.{MaybeSync, async, poll, drive, maybe_sync_block}

-- The answer at the first poll: that of the synchronous method, which is always ready, or that of the
-- future.
abbrev pub first_answer :
    {T : RustType} {Cx Out : Type 0} → IsFuture T Cx Out → Bool → Out → Bytes → Cx → Poll Out
first_answer impl is_sync out v cx = if is_sync then ready out else (impl.poll cx v).1

module _ {S Cx Out : Type 0} {st : Storage S} {T : RustType} (law : IsStorage st T)
    (impl : IsFuture T Cx Out) where
  -- an executor that polls an object once
  one_poll :
      (answer : Poll Out) (self : ℕ) {r : Outcome (DynObject S (FutureVtable S Cx Out) × Poll Out)}
      → Returns (λ p k. p.1 ≡ answer) r
      → Returns
          (λ a k. a ≡ answer)
          (and_then {B = Poll Out}
            (and_then {B = MaybeSync (DynObject S (FutureVtable S Cx Out)) Out × Poll Out}
              (and_then {B = MaybeSync (DynObject S (FutureVtable S Cx Out)) Out × Poll Out} r
                (λ p. pure (async p.0, p.1)))
              (λ q. elim q.1 [
                | ready res ↦ pure (q.0, ready res)
                | pending ↦ drive (poll (Future.poll self)) q.0 []
              ]))
            (λ r. pure r.1))
  unfolding drive
  one_poll (ready res) self (returns {a = (fut, answer)} e) = rw e (returns refl)
  one_poll pending self (returns {a = (fut, answer)} e) = rw e (returns refl)

  -- Only the path that the constant names is taken: nothing is asked of the other call.
  pub path_taken :
      (is_sync : Bool) (call_sync : Exec Out) (call_async : Exec Bytes) (out : Out) (v : Bytes)
      (cx : Cx) (h : Heap) (self : ℕ)
      → (is_sync ≡ true → call_sync ≡ pure out)
      → (is_sync ≡ false → call_async ≡ pure v)
      → length v ≡ T.size
      → IsPlace st self
      → Returns
          (λ answer k. answer ≡ first_answer impl is_sync out v cx)
          ((maybe_sync_block is_sync call_sync
                (call_async >>= λ v. new st (future_vtable st T impl) T v)
              >>= λ m. drive (poll (Future.poll self)) m (cx ∷ []) >>= λ r. pure r.1)
            h)
  unfolding maybe_sync_block drive poll new
  path_taken true call_sync call_async out v cx h self syn asy len at = rw (syn refl) (returns refl)
  path_taken false call_sync call_async out v cx h self syn asy len at =
      rw (asy refl) (made (law.new_lem v h len))
    where
      made :
          {r : Outcome S}
          → Returns
              (λ s h'.
                law.Stores v s h'.blocks
                × (release (law.owned s) h' ≡ h)
                × IsFresh (law.owned s) h h')
              r
          → Returns
              (λ answer k. answer ≡ (impl.poll cx v).1)
              (and_then
                (and_then
                  (and_then r
                    (λ s. pure (record { storage = s; vtable = future_vtable st T impl })))
                  (λ fut.
                    pure {A = MaybeSync (DynObject S (FutureVtable S Cx Out)) Out} (async fut)))
                (λ m. drive (poll (Future.poll self)) m (cx ∷ []) >>= λ r. pure r.1))
      made (returns {a = s} {h = h'} (stored, restores, fresh)) = one_poll (impl.poll cx v).1 self (
          weaken
            (poll_lem law impl v (record { storage = s; vtable = future_vtable st T impl }) h' self
              cx (record { vtable = refl; stores = stored; len = len }) at)
            λ r k (became, reply). reply)

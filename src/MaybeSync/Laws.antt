-- ===== src/MaybeSync/Laws.antt =====
-- `MaybeSync` behaves as the future that it wraps, or as one that is ready at once.
use dyn_utils.Prelude.{◌≡◌, refl, List, [], ◌∷◌}
use dyn_utils.Memory.{
  Heap, Exec, Outcome, ok, fault, undefined_behaviour, panicked, and_then, pure, ◌>>=◌,
}
use dyn_utils.Future.{Poll, ready, pending}
use dyn_utils.MaybeSync.{MaybeSync, sync, async, sync_polled, poll, drive}

module _ {F Cx Out : Type 0} (poll_inner : F → Cx → Exec (F × Poll Out)) where
  -- what a run of the wrapped future becomes for the wrapper
  abbrev wrapped : Outcome (F × Poll Out) → Outcome (MaybeSync F Out × Poll Out)
  wrapped r = and_then r (λ p. pure (async p.0, p.1))

  -- Polling takes the branch that `take_sync` takes to be unreachable in no state: undefined
  -- behaviour can come from the wrapped future only.
  pub poll_ub :
      (self : MaybeSync F Out) (cx : Cx) (h : Heap)
      → poll poll_inner self cx h ≡ fault undefined_behaviour
      → (fut : F) × (self ≡ async fut) × (poll_inner fut cx h ≡ fault undefined_behaviour)
  unfolding poll
  poll_ub (sync res) cx h e = cc
  poll_ub (async fut) cx h e = (fut, refl, inner (poll_inner fut cx h) e)
    where
      inner :
          (r : Outcome (F × Poll Out))
          → wrapped r ≡ fault undefined_behaviour
          → r ≡ fault undefined_behaviour
      inner (ok a k) e = cc
      inner (fault f) e = cc
  poll_ub sync_polled cx h e = cc

  -- A ready value is given out by the first poll, whatever the contexts; every later poll panics.
  pub drive-sync :
      (res : Out) (cx later : Cx) (cxs : List Cx) (h : Heap)
      → (drive (poll poll_inner) (sync res) (cx ∷ cxs) h ≡ ok (sync_polled, ready res) h)
        × ((drive (poll poll_inner) (sync res) (cx ∷ cxs) >>= λ r. poll poll_inner r.0 later) h
            ≡ fault panicked)
  unfolding drive poll
  drive-sync res cx later cxs h = (refl, refl)

  drive-step :
      (cxs : List Cx) (r : Outcome (F × Poll Out))
      → ((fut : F) (h : Heap)
          → drive (poll poll_inner) (async fut) cxs h ≡ wrapped (drive poll_inner fut cxs h))
      → and_then (wrapped r) (λ p. elim p.1 [
        | ready res ↦ pure (p.0, ready res)
        | pending ↦ drive (poll poll_inner) p.0 cxs
      ])
        ≡ wrapped (
            and_then r (λ p. elim p.1 [
              | ready res ↦ pure (p.0, ready res)
              | pending ↦ drive poll_inner p.0 cxs
            ]))
  drive-step cxs (ok (fut, ready res) h) ih = refl
  drive-step cxs (ok (fut, pending) h) ih = ih fut h
  drive-step cxs (fault f) ih = refl

  -- An executor that drives the wrapper of a future gets what it gets from that future: the same
  -- output after the same polls, the same heap, and a fault only where the future faults.
  pub drive-async :
      (cxs : List Cx) (fut : F) (h : Heap)
      → drive (poll poll_inner) (async fut) cxs h
        ≡ and_then (drive poll_inner fut cxs h) (λ r. pure (async r.0, r.1))
  unfolding drive poll
  drive-async [] fut h = refl
  drive-async (cx ∷ cxs) fut h = drive-step cxs (poll_inner fut cx h) (drive-async cxs)

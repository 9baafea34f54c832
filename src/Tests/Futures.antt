-- ===== src/Tests/Futures.antt =====
-- Futures and iterators in objects, and the theorems at them.
use dyn_utils.Prelude.{ℕ, zero, suc, ◌+◌, ◌≡◌, refl, arith, Option, none, some, [], ◌∷◌, length}
use dyn_utils.Memory.{Bytes, Exec, ok, fault, panicked, undefined_behaviour, pure, raise, ◌>>=◌}
use dyn_utils.Storage.RawOrBox.{raw_or_box_storage}
use dyn_utils.Object.{new, drop}
use dyn_utils.Object.Laws.{destroyed}
use dyn_utils.Future.{Poll, ready, pending, IsFuture, dyn_future, future_vtable, poll_all}
use dyn_utils.Future.Laws.{answers, final, drive_lem}
use dyn_utils.Iterator
use dyn_utils.Iterator.{IsIterator, dyn_iterator, iterator_vtable, call_all, Reply, item, hint}
use dyn_utils.Iterator.Laws
use dyn_utils.Iterator.Laws.{iterate_lem}
use dyn_utils.Iterator.Draining.{Yields, drain, drain-ends, more, stop}
use dyn_utils.MaybeSync.{MaybeSync, sync, async, sync_polled, poll, drive}
use dyn_utils.MaybeSync.Laws.{poll_ub, drive-sync}
use dyn_utils.Tests.Inputs.{bump, empty_heap, byte, variant}
use dyn_utils.Tests.Objects.{law, IsPlace-64}

-- a future that waits as often as its byte says, and then answers with its context
abbrev pub countdown : ℕ → Bytes → Bytes × Poll ℕ
countdown cx [] = ([], pending)
countdown cx (zero ∷ v) = (zero ∷ v, ready cx)
countdown cx (suc n ∷ v) = (n ∷ v, pending)

pub countdown_sized : (cx : ℕ) (v : Bytes) → length v ≡ 1 → length (countdown cx v).0 ≡ 1
countdown_sized cx [] e = e
countdown_sized cx (zero ∷ v) e = e
countdown_sized cx (suc n ∷ v) e = e

abbrev pub countdown_future : IsFuture byte ℕ ℕ
countdown_future = record { poll = countdown; sized = countdown_sized }

drive_lem_example :
    (new
          (raw_or_box_storage bump variant)
          (future_vtable (raw_or_box_storage bump variant) byte countdown_future)
          byte
          (1 ∷ [])
        >>= λ obj. poll_all 64 obj (5 ∷ 6 ∷ []) >>= λ r.
            drop (raw_or_box_storage bump variant) dyn_future 64 r.0 >>= λ _. pure r.1)
      empty_heap
    ≡ ok (pending ∷ ready 6 ∷ []) (destroyed byte (0 ∷ []) empty_heap)
unfolding answers final
drive_lem_example =
    drive_lem (law byte) countdown_future (5 ∷ 6 ∷ []) (1 ∷ []) empty_heap 64 refl IsPlace-64

-- an iterator that counts its byte down
abbrev pub take_one : Bytes → Bytes × Option ℕ
take_one [] = ([], none)
take_one (zero ∷ v) = (zero ∷ v, none)
take_one (suc n ∷ v) = (n ∷ v, some n)

take_one_sized : (v : Bytes) → length v ≡ 1 → length (take_one v).0 ≡ 1
take_one_sized [] e = e
take_one_sized (zero ∷ v) e = e
take_one_sized (suc n ∷ v) e = e

abbrev pub take_nth : ℕ → Bytes → Bytes × Option ℕ
take_nth zero v = take_one v
take_nth (suc n) v = take_nth n (take_one v).0

take_nth_sized : (n : ℕ) (v : Bytes) → length v ≡ 1 → length (take_nth n v).0 ≡ 1
take_nth_sized zero v e = take_one_sized v e
take_nth_sized (suc n) v e = take_nth_sized n (take_one v).0 (take_one_sized v e)

abbrev pub remaining : Bytes → ℕ × Option ℕ
remaining [] = (0, some 0)
remaining (n ∷ v) = (n, some n)

abbrev counting : IsIterator byte ℕ
counting = record {
  next = take_one;
  size_hint = remaining;
  nth = take_nth;
  next_sized = take_one_sized;
  nth_sized = take_nth_sized;
}

iterate_lem_example :
    (new
          (raw_or_box_storage bump variant)
          (iterator_vtable (raw_or_box_storage bump variant) byte counting)
          byte
          (4 ∷ [])
        >>= λ obj.
            call_all 64 obj (Iterator.size_hint ∷ Iterator.nth 2 ∷ Iterator.next ∷ []) >>= λ r.
            drop (raw_or_box_storage bump variant) dyn_iterator 64 r.0 >>= λ _. pure r.1)
      empty_heap
    ≡ ok
        (hint (4, some 4) ∷ item (some 1) ∷ item (some 0) ∷ [])
        (destroyed byte (0 ∷ []) empty_heap)
unfolding Laws.replies Laws.final
iterate_lem_example =
    iterate_lem (law byte) counting (Iterator.size_hint ∷ Iterator.nth 2 ∷ Iterator.next ∷ [])
      (4 ∷ []) empty_heap 64 refl IsPlace-64

-- three items, with fuel to spare
three_items : Yields counting (3 ∷ []) (2 ∷ 1 ∷ 0 ∷ []) (0 ∷ [])
three_items = more refl (more refl (more refl (stop refl)))

drain-ends_example :
    (new
          (raw_or_box_storage bump variant)
          (iterator_vtable (raw_or_box_storage bump variant) byte counting)
          byte
          (3 ∷ [])
        >>= λ obj. drain 10 64 obj >>= λ r.
            drop (raw_or_box_storage bump variant) dyn_iterator 64 r.0 >>= λ _. pure r.1)
      empty_heap
    ≡ ok (some (2 ∷ 1 ∷ 0 ∷ [])) (destroyed byte (0 ∷ []) empty_heap)
drain-ends_example =
    drain-ends (law byte) counting (3 ∷ []) (0 ∷ []) (2 ∷ 1 ∷ 0 ∷ []) 10 empty_heap 64 three_items
      (omega arith) refl IsPlace-64

-- a future that answers with its own number, and one that is broken
abbrev answering : ℕ → ℕ → Exec (ℕ × Poll ℕ)
answering fut cx = pure (fut, ready (fut + cx))

abbrev broken : ℕ → ℕ → Exec (ℕ × Poll ℕ)
broken fut cx = raise undefined_behaviour

poll_ub_example :
    (fut : ℕ) × (◌≡◌ {A = MaybeSync ℕ ℕ} (async 3) (async fut))
    × (broken fut 0 empty_heap ≡ fault undefined_behaviour)
unfolding poll
poll_ub_example = poll_ub broken (async 3) 0 empty_heap refl

drive-sync_example :
    (drive (poll answering) (sync 42) (7 ∷ []) empty_heap ≡ ok (sync_polled, ready 42) empty_heap)
    × ((drive (poll answering) (sync 42) (7 ∷ []) >>= λ r. poll answering r.0 8) empty_heap
        ≡ fault panicked)
drive-sync_example = drive-sync answering 42 7 8 [] empty_heap

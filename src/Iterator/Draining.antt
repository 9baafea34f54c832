-- ===== src/Iterator/Draining.antt =====
-- A client that takes every item of an object of `dyn Iterator`, as a `for` loop does.
use dyn_utils.Prelude.{
  ℕ, zero, suc, ◌<◌, arith, ◌≡◌, refl, ap, ◌∙◌, Option, none, some, List, [], ◌∷◌, length,
}
use mathlib.Core.Option.{map as option_map}
use dyn_utils.Memory.{Bytes, RustType, Heap, ok, Exec, pure, ◌>>=◌}
use dyn_utils.Memory.Returns.{Returns, returns, bind}
use dyn_utils.Storage.{Storage, IsPlace, IsStorage}
use dyn_utils.Object.{DynObject, new, drop}
use dyn_utils.Object.Laws.{destroyed}
use dyn_utils.Object.Call.Laws.{call_mut_lem}
use dyn_utils.Iterator.{IsIterator, IteratorVtable, dyn_iterator, iterator_vtable, next_of}
use dyn_utils.Iterator.Laws.{Became, IsObject, life_lem}

module _ {S Item : Type 0} where
  -- The loop calls `next` until it yields nothing. With no fuel left it stops and gives no list.
  unfoldable pub drain :
      ℕ
      → ℕ
      → DynObject S (IteratorVtable S Item)
      → Exec (DynObject S (IteratorVtable S Item) × Option (List Item))
  drain zero self obj = pure (obj, none)
  drain (suc fuel) self obj = next_of self obj >>= λ r. elim r.1 [
    | none ↦ pure (r.0, some [])
    | some x ↦ drain fuel self r.0 >>= λ rest. pure (rest.0, option_map (λ xs. x ∷ xs) rest.1)
  ]

-- The stored iterator yields these items and then nothing, and is `w` after that.
pub data Yields {T : RustType} {Item : Type 0} (impl : IsIterator T Item)
    : Bytes → List Item → Bytes → Type 0 where
  stop : {v : Bytes} → (impl.next v).1 ≡ none → Yields impl v [] (impl.next v).0
  more :
      {v w : Bytes} {x : Item} {xs : List Item}
      → (impl.next v).1 ≡ some x
      → Yields impl (impl.next v).0 xs w
      → Yields impl v (x ∷ xs) w

module _ {S Item : Type 0} {st : Storage S} {T : RustType} (law : IsStorage st T)
    (impl : IsIterator T Item) where
  next_lem :
      (v : Bytes) (obj : DynObject S (IteratorVtable S Item)) (h : Heap) (self : ℕ)
      → IsObject law impl v obj h
      → IsPlace st self
      → Returns
          (λ r k. Became law impl (impl.next v).0 obj h r.0 k × (r.1 ≡ (impl.next v).1))
          (next_of self obj h)
  unfolding next_of iterator_vtable
  next_lem v obj h self is at =
      let size = impl.next_sized v is.len in
      rw is.vtable (
        bind (call_mut_lem law impl.next v obj.storage h self is.stores at size) λ r k called.
          returns (
            record {
              object = record { vtable = refl; stores = called.stores; len = size };
              rest_same = rw called.owned_same called.rest_same;
            },
            called.reply,
          ))

  trans-Became :
      {u w : Bytes} {o₁ o₂ o₃ : DynObject S (IteratorVtable S Item)} {h₁ h₂ h₃ : Heap}
      → Became law impl u o₁ h₁ o₂ h₂
      → Became law impl w o₂ h₂ o₃ h₃
      → Became law impl w o₁ h₁ o₃ h₃
  trans-Became first later = record {
    object = later.object;
    rest_same = later.rest_same ∙ first.rest_same;
  }

  -- With more fuel than there are items the loop ends.
  drain_lem :
      (fuel : ℕ) {v w : Bytes} {items : List Item} (obj : DynObject S (IteratorVtable S Item))
      (h : Heap) (self : ℕ)
      → Yields impl v items w
      → length items < fuel
      → IsObject law impl v obj h
      → IsPlace st self
      → Returns (λ r k. Became law impl w obj h r.0 k × (r.1 ≡ some items)) (drain fuel self obj h)
  unfolding drain
  drain_lem zero obj h self yields enough is at = absurd (omega arith)
  drain_lem (suc fuel) obj h self (stop {v} e) enough is at =
      bind (next_lem v obj h self is at)
        λ r k (became, reply). rw (reply, e) (returns (became, refl))
  drain_lem (suc fuel) obj h self (more {v} {x = x} e yields) enough is at =
      bind (next_lem v obj h self is at) λ r k (became, reply).
        rw (reply, e)
          (bind (drain_lem fuel r.0 k self yields (omega arith) became.object at)
            λ r' k' (later, got).
              returns (trans-Became became later, ap (option_map (λ xs. x ∷ xs)) got))

  -- A `for` loop over an object of an iterator that ends, ends too: a client that makes the object,
  -- takes every item and drops it gets the items of the iterator, in order, with no fault, whatever
  -- fuel above their number it is given. The destructor, if the type has one, runs once, on what the
  -- iterator is after the last item, and the heap is as it was.
  pub drain-ends :
      (v w : Bytes) (items : List Item) (fuel : ℕ) (h : Heap) (self : ℕ)
      → Yields impl v items w
      → length items < fuel
      → length v ≡ T.size
      → IsPlace st self
      → (new st (iterator_vtable st T impl) T v >>= λ obj.
            drain fuel self obj >>= λ r. drop st dyn_iterator self r.0 >>= λ _. pure r.1)
          h
        ≡ ok (some items) (destroyed T w h)
  drain-ends v w items fuel h self yields enough len at =
      life_lem law impl (drain fuel self) v w (some items) h self len at
        (λ obj k is. drain_lem fuel obj k self yields enough is at)

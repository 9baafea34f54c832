-- ===== src/Iterator/Pool/Laws.antt =====
-- Any number of objects in one heap: each behaves as its own iterator, and nothing is lost.
use dyn_utils.Prelude.{ℕ, ◌≡◌, refl, Option, List, [], ◌∷◌}
use dyn_utils.Memory.{RustType, Heap, Outcome, ok, and_then, pure, ◌>>=◌}
use dyn_utils.Memory.Returns.{Returns, returns, bind}
use dyn_utils.Storage.{Storage, IsPlace, IsStorage}
use dyn_utils.Iterator.Pool.{Obj, Op, Source, all_ended, drop_all, final, items, perform_all}
use dyn_utils.Iterator.Pool.Held.{Held, Held-ended, also, nothing}
use dyn_utils.Iterator.Pool.Steps.{drop_one, perform_lem}

module _ {S Item : Type 0} {st : Storage S} (laws : (T : RustType) → IsStorage st T) where
  -- Some iterators are left, and the record is on its way to the final one.
  Remaining :
      List (Op Item)
      → List (Source Item)
      → Heap
      → List (Obj S Item) × List (Option Item)
      → Heap
      → Type 0
  Remaining ops srcs base r k =
      (rest : List (Source Item)) × (log : Heap) × Held laws rest r.0 k log
      × (all_ended rest log ≡ final ops srcs base)
      × (r.1 ≡ items ops srcs base)

  perform_all_lem :
      (ops : List (Op Item)) {srcs : List (Source Item)} {objs : List (Obj S Item)} {h base : Heap}
      (self : ℕ)
      → Held laws srcs objs h base
      → IsPlace st self
      → Returns (Remaining ops srcs base) (perform_all st self ops objs h)
  unfolding perform_all items final Remaining
  perform_all_lem [] {srcs} {base = base} self held at = returns (srcs, base, held, refl, refl)
  perform_all_lem (op ∷ ops) self held at =
      bind (perform_lem laws op self held at) λ r k (after, found).
        bind (perform_all_lem ops self after at) λ r' k' (rest, log, left, same, others).
          returns (rest, log, left, same, rw (found, others) refl)

  drop_all_lem :
      (srcs : List (Source Item)) {objs : List (Obj S Item)} {h base : Heap} (self : ℕ)
      → Held laws srcs objs h base
      → IsPlace st self
      → drop_all st self objs h ≡ ok tt (all_ended srcs base)
  unfolding drop_all all_ended
  drop_all_lem [] self nothing at = refl
  drop_all_lem (src ∷ srcs) self (also {obj = obj} {h = h} is apart held) at =
      rw (drop_one laws src obj h self is at) (drop_all_lem srcs self (Held-ended laws src held) at)

  -- A client makes objects of iterators of any types, in one heap and in any order, takes items from
  -- them, drops them and inserts others in their place, and in the end drops what it still has.
  -- Nothing of this is a fault. It gets from each object the items of its iterator, whatever it does
  -- with the others. The destructor of each iterator that needs one runs once, when its object is
  -- dropped or another is inserted in its place, on what the iterator has become, and the heap is as
  -- it was.
  pub pool-life :
      (ops : List (Op Item)) (h : Heap) (self : ℕ)
      → IsPlace st self
      → (perform_all st self ops [] >>= λ r. drop_all st self r.0 >>= λ _. pure r.1) h
        ≡ ok (items ops [] h) (final ops [] h)
  unfolding Remaining
  pool-life ops h self at = ended_by (perform_all_lem ops self nothing at)
    where
      ended_by :
          {r : Outcome (List (Obj S Item) × List (Option Item))}
          → Returns (Remaining ops [] h) r
          → and_then r (λ r. drop_all st self r.0 >>= λ _. pure r.1)
            ≡ ok (items ops [] h) (final ops [] h)
      ended_by (returns {a = r} {h = k} (rest, log, left, same, found)) =
          rw (drop_all_lem rest self left at) (λ i. ok (found i) (same i))

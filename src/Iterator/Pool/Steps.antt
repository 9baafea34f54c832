-- ===== src/Iterator/Pool/Steps.antt =====
-- One operation on a pool of objects does to them what it does to their iterators.
use dyn_utils.Prelude.{ℕ, ◌≡◌, refl, sym, subst, ◌∙◌, Option, some, List, ◌∷◌}
use dyn_utils.Memory.{RustType, Heap, ok, pure, ◌>>=◌, release, Ptr}
use dyn_utils.Memory.Returns.{Returns, returns, bind}
use dyn_utils.Storage.{Storage, IsPlace, IsStorage}
use dyn_utils.Object.{IsVtable, new, drop, insert}
use dyn_utils.Object.Laws.{drop_lem}
use dyn_utils.Object.Call.Laws.{call_mut_lem}
use dyn_utils.Iterator.{dyn_iterator, iterator_vtable, next_of}
use dyn_utils.Iterator.Laws.{iterator_vtable-IsVtable}
use dyn_utils.Iterator.Pool.{
  Effect, Obj, Op, Source, advance, drop_at, drop_from, dropped_from, effect, ended, make, perform,
  take, take_from, taken, extract, insert_at, insert_from, inserted,
}
use dyn_utils.Iterator.Pool.Held.{
  Apart, Extracted, Held, Held-ended, IsNew-Apart, IsOf, also, both, extract_lem, neither, owns,
}

module _ {S Item : Type 0} {st : Storage S} (laws : (T : RustType) → IsStorage st T) where
  -- An item is taken from an object that stands before the others.
  take_lem :
      (src : Source Item) (obj : Obj S Item) {srcs : List (Source Item)} {objs : List (Obj S Item)}
      {h base : Heap} (self : ℕ)
      → IsOf laws src obj h
      → Apart laws (owns laws src obj) srcs objs
      → Held laws srcs objs (release (owns laws src obj) h) base
      → IsPlace st self
      → Returns
          (λ r k.
            Held laws (advance src ∷ srcs) (r.0 ∷ objs) k base
            × (r.1 ≡ (src.impl.next src.value).1))
          (next_of self obj h)
  unfolding next_of iterator_vtable advance
  take_lem src obj {srcs} {objs} {h} {base} self is apart held at =
      let law = laws src.source_type in
      let size = src.impl.next_sized src.value is.len in
      rw is.vtable (
        bind (call_mut_lem law src.impl.next src.value obj.storage h self is.stores at size)
          λ r k called. returns (
            also (record { vtable = refl; stores = called.stores; len = size })
                (subst (λ o. Apart laws o srcs objs) (sym called.owned_same) apart)
                (subst (λ g. Held laws srcs objs g base)
                  (sym ((λ i. release (called.owned_same i) k) ∙ called.rest_same)) held),
            called.reply,
          ))

  pub drop_one :
      (src : Source Item) (obj : Obj S Item) (h : Heap) (self : ℕ)
      → IsOf laws src obj h
      → IsPlace st self
      → drop st dyn_iterator self obj h ≡ ok tt (release (owns laws src obj) (ended src h))
  drop_one src obj h self is at =
      let vt : IsVtable dyn_iterator src.source_type obj.vtable =
        subst (IsVtable dyn_iterator src.source_type) (sym is.vtable)
          (iterator_vtable-IsVtable st src.source_type src.impl) in
      drop_lem dyn_iterator (laws src.source_type) src.value obj h self
        (record { vtable = vt; stores = is.stores }) at

  -- What an operation does to the objects is what it does to the iterators.
  abbrev pub Performed : Effect Item → List (Obj S Item) × Option Item → Heap → Type 0
  Performed e r k = Held laws e.sources r.0 k e.after × (r.1 ≡ e.found)

  take_from_lem :
      {srcs : List (Source Item)} {objs : List (Obj S Item)} {h base : Heap}
      {x : Option (Source Item × List (Source Item))} {y : Option (Obj S Item × List (Obj S Item))}
      (self : ℕ)
      → Held laws srcs objs h base
      → Extracted laws srcs objs h base x y
      → IsPlace st self
      → Returns (Performed (taken srcs base x)) (take_from st self objs y h)
  unfolding take_from taken
  take_from_lem self held neither at = returns (held, refl)
  take_from_lem self held (both {src} {obj} is apart rest keeps) at =
      bind (take_lem src obj self is apart rest at) λ r k (after, found). returns (after, found)

  drop_from_lem :
      {srcs : List (Source Item)} {objs : List (Obj S Item)} {h base : Heap}
      {x : Option (Source Item × List (Source Item))} {y : Option (Obj S Item × List (Obj S Item))}
      (self : ℕ)
      → Held laws srcs objs h base
      → Extracted laws srcs objs h base x y
      → IsPlace st self
      → Returns (Performed (dropped_from srcs base x)) (drop_from st self objs y h)
  unfolding drop_from dropped_from
  drop_from_lem self held neither at = returns (held, refl)
  drop_from_lem {h = h} self held (both {src} {obj} is apart rest keeps) at =
      rw (drop_one src obj h self is at) (returns (Held-ended laws src rest, refl))

  make_lem :
      (src : Source Item) {srcs : List (Source Item)} {objs : List (Obj S Item)} {h base : Heap}
      → Held laws srcs objs h base
      → Returns
          (λ obj k. Held laws (src ∷ srcs) (obj ∷ objs) k base)
          (new st (iterator_vtable st src.source_type src.impl) src.source_type src.value h)
  unfolding new
  make_lem src {srcs} {objs} {h} {base} held =
      let law = laws src.source_type in
      bind (law.new_lem src.value h src.sized) λ s h' (stored, restores, fresh). returns (
        also (record { vtable = refl; stores = stored; len = src.sized })
          (IsNew-Apart laws (law.owned s) held (λ a b found. (fresh a b found).1))
          (subst (λ g. Held laws srcs objs g base) (sym restores) held))

  -- The reference to the data of the first object can be taken.
  reach_first :
      (src : Source Item) (obj : Obj S Item) {srcs : List (Source Item)} {objs : List (Obj S Item)}
      {h base : Heap} (self : ℕ)
      → Held laws (src ∷ srcs) (obj ∷ objs) h base
      → IsPlace st self
      → Returns {A = Obj S Item × Ptr}
          (λ r k. Held laws (src ∷ srcs) (r.0 ∷ objs) k base)
          ((st.as_mut src.source_type self obj.storage >>= λ p. pure (obj, p)) h)
  reach_first src obj {h = h} self (also is apart rest) at =
      let (p, _, _, _, reached, _) =
        (laws src.source_type).access src.value obj.storage h self is.stores at in
      rw reached (returns (also is apart rest))

  drop_second :
      (src old : Source Item) (obj gone : Obj S Item) {srcs : List (Source Item)}
      {objs : List (Obj S Item)} {h base : Heap} (self : ℕ)
      → Extracted laws
          (src ∷ old ∷ srcs)
          (obj ∷ gone ∷ objs)
          h
          base
          (some (old, src ∷ srcs))
          (some (gone, obj ∷ objs))
      → IsPlace st self
      → Returns
          (λ r k. Held laws (src ∷ srcs) (obj ∷ objs) k (ended old base))
          (drop st dyn_iterator self gone h)
  drop_second src old obj gone {h = h} self (both is apart rest keeps) at =
      rw (drop_one old gone h self is at) (returns (Held-ended laws old rest))

  insert_from_lem :
      (src : Source Item) {srcs : List (Source Item)} {objs : List (Obj S Item)} {h base : Heap}
      {x : Option (Source Item × List (Source Item))} {y : Option (Obj S Item × List (Obj S Item))}
      (self : ℕ)
      → Held laws srcs objs h base
      → Extracted laws srcs objs h base x y
      → IsPlace st self
      → Returns (Performed (inserted src srcs base x)) (insert_from st self src objs y h)
  unfolding insert_from inserted insert extract
  insert_from_lem src self held neither at =
      bind (bind (make_lem src held) λ obj k made. reach_first src obj self made at)
        λ r k after. returns (after, refl)
  insert_from_lem src self held (both {src = old} {obj = gone} is apart rest keeps) at =
      bind
        (bind (make_lem src (also is apart rest)) λ obj k made.
          bind (drop_second src old obj gone self (extract_lem laws 1 made) at)
            λ r k after. reach_first src obj self after at)
        λ r k after. returns (after, refl)

  pub perform_lem :
      (op : Op Item) {srcs : List (Source Item)} {objs : List (Obj S Item)} {h base : Heap}
      (self : ℕ)
      → Held laws srcs objs h base
      → IsPlace st self
      → Returns (Performed (effect op srcs base)) (perform st self op objs h)
  unfolding perform effect
  perform_lem (make src) self held at =
      bind (make_lem src held) λ obj k after. returns (after, refl)
  perform_lem (take n) self held at = take_from_lem self held (extract_lem laws n held) at
  perform_lem (drop_at n) self held at = drop_from_lem self held (extract_lem laws n held) at
  perform_lem (insert_at n src) self held at =
      insert_from_lem src self held (extract_lem laws n held) at

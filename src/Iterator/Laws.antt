-- ===== src/Iterator/Laws.antt =====
-- An object of `dyn Iterator` behaves as the iterator that it stores.
use dyn_utils.Prelude.{ℕ, ◌≡◌, refl, sym, subst, ap, ◌∙◌, List, [], ◌∷◌, length, Option}
use dyn_utils.Memory.{Bytes, RustType, Heap, Exec, Outcome, ok, and_then, pure, release, ◌>>=◌}
use dyn_utils.Memory.Returns.{Returns, returns, bind}
use dyn_utils.Storage.{Storage, IsPlace, IsFresh, IsStorage}
use dyn_utils.Object.{DynObject, IsVtable, new, drop}
use dyn_utils.Object.Laws.{destroyed, drop_lem}
use dyn_utils.Object.Call.{call_mut}
use dyn_utils.Object.Call.Laws.{call_ref_lem, call_mut_lem}
use dyn_utils.Iterator.{
  IsIterator, IteratorVtable, dyn_iterator, iterator_vtable, Call, next, size_hint, nth, Reply,
  item, hint, call, call_all,
}

module _ {S Item : Type 0} (st : Storage S) where
  -- The vtable keeps the safety contract of `Vtable<T>`.
  pub iterator_vtable-IsVtable :
      (T : RustType) (impl : IsIterator T Item)
      → IsVtable dyn_iterator T (iterator_vtable st T impl)
  unfolding iterator_vtable
  iterator_vtable-IsVtable T impl = record { layout = refl; drop_fn = refl }

-- What the iterator itself replies, and what becomes of it.
module _ {T : RustType} {Item : Type 0} (impl : IsIterator T Item) where
  unfoldable pub reply_of : Bytes → Call → Bytes × Reply Item
  reply_of v next = ((impl.next v).0, item (impl.next v).1)
  reply_of v size_hint = (v, hint (impl.size_hint v))
  reply_of v (nth n) = ((impl.nth n v).0, item (impl.nth n v).1)

  unfoldable pub replies : Bytes → List Call → List (Reply Item)
  unfolding reply_of
  replies v [] = []
  replies v (c ∷ cs) = (reply_of v c).1 ∷ replies (reply_of v c).0 cs

  unfoldable pub final : Bytes → List Call → Bytes
  unfolding reply_of
  final v [] = v
  final v (c ∷ cs) = final (reply_of v c).0 cs

module _ {S Item : Type 0} {st : Storage S} {T : RustType} (law : IsStorage st T)
    (impl : IsIterator T Item) where
  -- an object of the iterator `v`
  pub record IsObject (v : Bytes) (obj : DynObject S (IteratorVtable S Item)) (h : Heap)
      : Type 0 where
    pub vtable : obj.vtable ≡ iterator_vtable st T impl
    pub stores : law.Stores v obj.storage h.blocks
    pub len : length v ≡ T.size

  -- The object is that of the iterator `w`, in a heap whose other blocks and whose record of
  -- destructors are as they were.
  pub record Became (w : Bytes) (obj : DynObject S (IteratorVtable S Item)) (h : Heap)
      (obj' : DynObject S (IteratorVtable S Item)) (k : Heap) : Type 0 where
    pub object : IsObject w obj' k
    pub rest_same : release (law.owned obj'.storage) k ≡ release (law.owned obj.storage) h

  abbrev object : S → DynObject S (IteratorVtable S Item)
  object s = record { storage = s; vtable = iterator_vtable st T impl }

  -- a method on `&mut self` that yields an item
  item_lem :
      (method : Bytes → Bytes × Option Item) (v : Bytes) (s : S) (h : Heap) (self : ℕ)
      → IsObject v (object s) h
      → IsPlace st self
      → length (method v).0 ≡ T.size
      → Returns {A = DynObject S (IteratorVtable S Item) × Option Item}
          (λ r k. Became (method v).0 (object s) h r.0 k × (r.1 ≡ (method v).1))
          ((call_mut st T st.as_mut method self s >>= λ r. pure (object r.0, r.1)) h)
  item_lem method v s h self is at size =
      bind (call_mut_lem law method v s h self is.stores at size) λ r k called. returns (
        record {
          object = record { vtable = refl; stores = called.stores; len = size };
          rest_same = rw called.owned_same called.rest_same;
        },
        called.reply,
      )

  object_call :
      (c : Call) (v : Bytes) (s : S) (h : Heap) (self : ℕ)
      → IsObject v (object s) h
      → IsPlace st self
      → Returns
          (λ r k. Became (reply_of impl v c).0 (object s) h r.0 k × (r.1 ≡ (reply_of impl v c).1))
          (call self (object s) c h)
  unfolding call iterator_vtable reply_of
  object_call next v s h self is at =
      bind (item_lem impl.next v s h self is at (impl.next_sized v is.len))
        λ r k (became, reply). returns (became, ap item reply)
  object_call size_hint v s h self is at =
      rw (call_ref_lem law impl.size_hint v s h self is.stores at)
        (returns (record { object = is; rest_same = refl }, refl))
  object_call (nth n) v s h self is at =
      bind (item_lem (impl.nth n) v s h self is at (impl.nth_sized n v is.len))
        λ r k (became, reply). returns (became, ap item reply)

  -- Each call has the reply of the stored iterator.
  call_lem :
      (c : Call) (v : Bytes) (obj : DynObject S (IteratorVtable S Item)) (h : Heap) (self : ℕ)
      → IsObject v obj h
      → IsPlace st self
      → Returns
          (λ r k. Became (reply_of impl v c).0 obj h r.0 k × (r.1 ≡ (reply_of impl v c).1))
          (call self obj c h)
  call_lem c v obj h self is at =
      let same : obj ≡ object obj.storage =
        λ i. record { storage = obj.storage; vtable = is.vtable i } in
      subst
        (λ o.
          Returns (λ r k. Became (reply_of impl v c).0 o h r.0 k × (r.1 ≡ (reply_of impl v c).1))
            (call self o c h))
        (sym same)
        (object_call c v obj.storage h self
          (record { vtable = refl; stores = is.stores; len = is.len }) at)

  -- Any sequence of calls of `next`, `size_hint` and `nth` on the object has the replies of the
  -- stored iterator, and the object then holds what that iterator has become.
  pub call_all_lem :
      (cs : List Call) (v : Bytes) (obj : DynObject S (IteratorVtable S Item)) (h : Heap) (self : ℕ)
      → IsObject v obj h
      → IsPlace st self
      → Returns
          (λ r k. Became (final impl v cs) obj h r.0 k × (r.1 ≡ replies impl v cs))
          (call_all self obj cs h)
  unfolding call_all final replies
  call_all_lem [] v obj h self is at = returns (record { object = is; rest_same = refl }, refl)
  call_all_lem (c ∷ cs) v obj h self is at =
      bind (call_lem c v obj h self is at) λ r k (became, reply).
        bind (call_all_lem cs (reply_of impl v c).0 r.0 k self became.object at)
          λ r' k' (later, rest). returns (
            record { object = later.object; rest_same = later.rest_same ∙ became.rest_same },
            rw (reply, rest) refl,
          )

  -- Making an object, using it and dropping it, from what the use makes of the iterator.
  pub life_lem :
      {B : Type 0}
      (run : DynObject S (IteratorVtable S Item) → Exec (DynObject S (IteratorVtable S Item) × B))
      (v w : Bytes) (b : B) (h : Heap) (self : ℕ)
      → length v ≡ T.size
      → IsPlace st self
      → ((obj : DynObject S (IteratorVtable S Item)) (k : Heap)
          → IsObject v obj k
          → Returns (λ r k'. Became w obj k r.0 k' × (r.1 ≡ b)) (run obj k))
      → (new st (iterator_vtable st T impl) T v >>= λ obj.
            run obj >>= λ r. drop st dyn_iterator self r.0 >>= λ _. pure r.1)
          h
        ≡ ok b (destroyed T w h)
  unfolding new
  life_lem {B} run v w b h self len at runs = made (law.new_lem v h len)
    where
      used :
          {r : Outcome (DynObject S (IteratorVtable S Item) × B)}
          (obj : DynObject S (IteratorVtable S Item)) (h' : Heap)
          → release (law.owned obj.storage) h' ≡ h
          → Returns (λ r k. Became w obj h' r.0 k × (r.1 ≡ b)) r
          → and_then r (λ r. drop st dyn_iterator self r.0 >>= λ _. pure r.1)
            ≡ ok b (destroyed T w h)
      used obj h' restores (returns {a = r} {h = k} (became, same)) =
          let is : IsVtable dyn_iterator T r.0.vtable =
            subst (IsVtable dyn_iterator T) (sym became.object.vtable)
              (iterator_vtable-IsVtable st T impl) in
          let gone =
            drop_lem dyn_iterator law w r.0 k self
              (record { vtable = is; stores = became.object.stores }) at in
          let clean = became.rest_same ∙ restores in
          rw gone (λ i. ok (same i) (destroyed T w (clean i)))

      made :
          {r : Outcome S}
          → Returns
              (λ s h'.
                law.Stores v s h'.blocks
                × (release (law.owned s) h' ≡ h)
                × IsFresh (law.owned s) h h')
              r
          → and_then
              (and_then r (λ s. pure (record { storage = s; vtable = iterator_vtable st T impl })))
              (λ obj. run obj >>= λ r. drop st dyn_iterator self r.0 >>= λ _. pure r.1)
            ≡ ok b (destroyed T w h)
      made (returns {a = s} {h = h'} (stored, restores, fresh)) =
          used (object s) h' restores
            (runs (object s) h' (record { vtable = refl; stores = stored; len = len }))

  -- The whole life of an object: made, called any number of times, dropped. The client gets the
  -- replies of the iterator, the destructor runs once, on what the iterator has become, and the
  -- heap is as it was.
  pub iterate_lem :
      (cs : List Call) (v : Bytes) (h : Heap) (self : ℕ)
      → length v ≡ T.size
      → IsPlace st self
      → (new st (iterator_vtable st T impl) T v >>= λ obj.
            call_all self obj cs >>= λ r. drop st dyn_iterator self r.0 >>= λ _. pure r.1)
          h
        ≡ ok (replies impl v cs) (destroyed T (final impl v cs) h)
  iterate_lem cs v h self len at =
      life_lem (λ obj. call_all self obj cs) v (final impl v cs) (replies impl v cs) h self len at
        (λ obj k is. call_all_lem cs v obj k self is at)

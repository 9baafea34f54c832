-- ===== src/Future/Laws.antt =====
-- An object of `dyn Future` behaves as the future that it stores.
use dyn_utils.Prelude.{ℕ, ◌≡◌, refl, sym, subst, ◌∙◌, List, [], ◌∷◌, length}
use dyn_utils.Memory.{Bytes, RustType, Heap, Outcome, ok, and_then, pure, release, ◌>>=◌}
use dyn_utils.Memory.Returns.{Returns, returns, bind}
use dyn_utils.Storage.{Storage, IsPlace, IsFresh, IsStorage}
use dyn_utils.Object.{DynObject, IsVtable, new, drop}
use dyn_utils.Object.Laws.{destroyed, drop_lem}
use dyn_utils.Object.Call.Laws.{call_mut_lem}
use dyn_utils.Future.{Poll, IsFuture, FutureVtable, dyn_future, future_vtable, poll, poll_all}

module _ {S Cx Out : Type 0} (st : Storage S) where
  -- The vtable keeps the safety contract of `Vtable<T>`.
  pub future_vtable-IsVtable :
      (T : RustType) (impl : IsFuture T Cx Out) → IsVtable dyn_future T (future_vtable st T impl)
  unfolding future_vtable
  future_vtable-IsVtable T impl = record { layout = refl; drop_fn = refl }

-- What the future itself answers, and what becomes of it.
module _ {T : RustType} {Cx Out : Type 0} (impl : IsFuture T Cx Out) where
  unfoldable pub answers : Bytes → List Cx → List (Poll Out)
  answers v [] = []
  answers v (cx ∷ cxs) = (impl.poll cx v).1 ∷ answers (impl.poll cx v).0 cxs

  unfoldable pub final : Bytes → List Cx → Bytes
  final v [] = v
  final v (cx ∷ cxs) = final (impl.poll cx v).0 cxs

module _ {S Cx Out : Type 0} {st : Storage S} {T : RustType} (law : IsStorage st T)
    (impl : IsFuture T Cx Out) where
  -- an object of the future `v`
  pub record IsObject (v : Bytes) (obj : DynObject S (FutureVtable S Cx Out)) (h : Heap)
      : Type 0 where
    pub vtable : obj.vtable ≡ future_vtable st T impl
    pub stores : law.Stores v obj.storage h.blocks
    pub len : length v ≡ T.size

  -- The object is that of the future `w`, in a heap whose other blocks and whose record of
  -- destructors are as they were.
  pub record Became (w : Bytes) (obj : DynObject S (FutureVtable S Cx Out)) (h : Heap)
      (obj' : DynObject S (FutureVtable S Cx Out)) (k : Heap) : Type 0 where
    pub object : IsObject w obj' k
    pub rest_same : release (law.owned obj'.storage) k ≡ release (law.owned obj.storage) h

  pub poll_lem :
      (v : Bytes) (obj : DynObject S (FutureVtable S Cx Out)) (h : Heap) (self : ℕ) (cx : Cx)
      → IsObject v obj h
      → IsPlace st self
      → Returns
          (λ r k. Became (impl.poll cx v).0 obj h r.0 k × (r.1 ≡ (impl.poll cx v).1))
          (poll self obj cx h)
  unfolding poll future_vtable
  poll_lem v obj h self cx is at =
      let size = impl.sized cx v is.len in
      rw is.vtable (
        bind (call_mut_lem law (impl.poll cx) v obj.storage h self is.stores at size) λ r k called.
          returns (
            record {
              object = record { vtable = refl; stores = called.stores; len = size };
              rest_same = rw called.owned_same called.rest_same;
            },
            called.reply,
          ))

  -- However often an executor polls the object, it gets the answers of the stored future, and the
  -- object then holds what that future has become.
  pub poll_all_lem :
      (cxs : List Cx) (v : Bytes) (obj : DynObject S (FutureVtable S Cx Out)) (h : Heap) (self : ℕ)
      → IsObject v obj h
      → IsPlace st self
      → Returns
          (λ r k. Became (final impl v cxs) obj h r.0 k × (r.1 ≡ answers impl v cxs))
          (poll_all self obj cxs h)
  unfolding poll_all final answers
  poll_all_lem [] v obj h self is at = returns (record { object = is; rest_same = refl }, refl)
  poll_all_lem (cx ∷ cxs) v obj h self is at =
      bind (poll_lem v obj h self cx is at) λ r k (became, reply).
        bind (poll_all_lem cxs (impl.poll cx v).0 r.0 k self became.object at)
          λ r' k' (later, replies). returns (
            record { object = later.object; rest_same = later.rest_same ∙ became.rest_same },
            rw (reply, replies) refl,
          )

  -- The whole life of an object: made, polled any number of times, dropped. The executor gets the
  -- answers of the future, the destructor runs once, on what the future has become, and the heap is
  -- as it was.
  pub drive_lem :
      (cxs : List Cx) (v : Bytes) (h : Heap) (self : ℕ)
      → length v ≡ T.size
      → IsPlace st self
      → (new st (future_vtable st T impl) T v >>= λ obj.
            poll_all self obj cxs >>= λ r. drop st dyn_future self r.0 >>= λ _. pure r.1)
          h
        ≡ ok (answers impl v cxs) (destroyed T (final impl v cxs) h)
  unfolding new
  drive_lem cxs v h self len at = made (law.new_lem v h len)
    where
      polled :
          {r : Outcome (DynObject S (FutureVtable S Cx Out) × List (Poll Out))}
          (obj : DynObject S (FutureVtable S Cx Out)) (h' : Heap)
          → release (law.owned obj.storage) h' ≡ h
          → Returns (λ r k. Became (final impl v cxs) obj h' r.0 k × (r.1 ≡ answers impl v cxs)) r
          → and_then r (λ r. drop st dyn_future self r.0 >>= λ _. pure r.1)
            ≡ ok (answers impl v cxs) (destroyed T (final impl v cxs) h)
      polled obj h' restores (returns {a = r} {h = k} (became, replies)) =
          let is : IsVtable dyn_future T r.0.vtable =
            subst (IsVtable dyn_future T) (sym became.object.vtable)
              (future_vtable-IsVtable st T impl) in
          let w = final impl v cxs in
          let gone =
            drop_lem dyn_future law w r.0 k self
              (record { vtable = is; stores = became.object.stores }) at in
          let clean = became.rest_same ∙ restores in
          rw gone (λ i. ok (replies i) (destroyed T w (clean i)))

      made :
          {r : Outcome S}
          → Returns
              (λ s h'.
                law.Stores v s h'.blocks
                × (release (law.owned s) h' ≡ h)
                × IsFresh (law.owned s) h h')
              r
          → and_then
              (and_then r (λ s. pure (record { storage = s; vtable = future_vtable st T impl })))
              (λ obj. poll_all self obj cxs >>= λ r. drop st dyn_future self r.0 >>= λ _. pure r.1)
            ≡ ok (answers impl v cxs) (destroyed T (final impl v cxs) h)
      made (returns {a = s} {h = h'} (stored, restores, fresh)) = polled _ h' restores (
          poll_all_lem cxs v (record { storage = s; vtable = future_vtable st T impl }) h' self
            (record { vtable = refl; stores = stored; len = len }) at)

-- ===== src/Any/Laws.antt =====
-- Downcasts of objects of `dyn Any`.
use dyn_utils.Prelude.{
  ℕ, ◌≡◌, ◌≢◌, refl, ap, ◌∙◌, ◌⊎◌, inl, inr, true, false, none, some, length, arith, Bool-cases,
  ◌==◌, ==-refl,
}
use dyn_utils.Memory.{
  Bytes, RustType, Heap, Outcome, ok, and_then, pure, ◌>>=◌, Ptr, load, write_ref, read_ref-ok,
  release,
}
use dyn_utils.Memory.Returns.{Returns, returns, weaken}
use dyn_utils.Storage.{Storage, IsPlace, IsFresh, IsStorage}
use dyn_utils.Object.{DynObject, IsVtable, new}
use dyn_utils.Any.{AnyVtable, dyn_any, any_vtable, downcast_ref, downcast_mut, downcast}

-- The vtable keeps the safety contract of `Vtable<T>`.
pub any_vtable-IsVtable : (T : RustType) → IsVtable dyn_any T (any_vtable T)
any_vtable-IsVtable T = record { layout = refl; drop_fn = refl }

module _ {S : Type 0} {st : Storage S} {T : RustType} (law : IsStorage st T) where
  -- an object that was made from a value of type `T`
  pub record IsAny (v : Bytes) (obj : DynObject S AnyVtable) (h : Heap) : Type 0 where
    pub vtable : obj.vtable ≡ any_vtable T
    pub stores : law.Stores v obj.storage h.blocks

  -- What downcasts to the type `T` itself give.
  pub record Granted (v : Bytes) (obj : DynObject S AnyVtable) (self : ℕ) (h : Heap) : Type 0 where
    pub target : Ptr
    pub by_ref : downcast_ref st T self obj h ≡ ok (some target) h
    pub by_mut : downcast_mut st T self obj h ≡ ok (some target) h
    pub leads : load T (st.place self obj.storage) target h ≡ some v
    pub by_value : downcast st T self obj h ≡ ok (inl v) (release (law.owned obj.storage) h)

  -- What downcasts to another type give.
  pub record Refused (U : RustType) (obj : DynObject S AnyVtable) (self : ℕ) (h : Heap)
      : Type 0 where
    pub by_ref : downcast_ref st U self obj h ≡ ok none h
    pub by_mut : downcast_mut st U self obj h ≡ ok none h
    pub by_value : downcast st U self obj h ≡ ok (inr obj) h

  granted :
      (v : Bytes) (obj : DynObject S AnyVtable) (h : Heap) (self : ℕ)
      → IsAny v obj h
      → IsPlace st self
      → Granted v obj self h
  unfolding downcast_ref downcast_mut downcast
  granted v obj h self any at =
      let (p, e1, e2, e3, e4, got) = law.access v obj.storage h self any.stores at in
      let hit : (obj.vtable.type_id == T.type_id) ≡ true = rw (any.vtable) (==-refl T.type_id) in
      record {
        target = p;
        by_ref = rw (hit, e3) refl;
        by_mut = rw (hit, e4) refl;
        leads = got;
        by_value =
            rw
              (
                hit,
                e2,
                read_ref-ok T (st.place self obj.storage) p h v got,
                law.drop_lem v obj.storage h any.stores,
              )
              refl;
      }

  -- A downcast to `U` of an object that holds a `T` succeeds exactly if the two types are one, given
  -- that equal type ids belong to one type. It then leads to the value, or hands it out with the
  -- object's memory freed and no destructor run; otherwise the object comes back unchanged.
  pub downcast_cases :
      (U : RustType) (v : Bytes) (obj : DynObject S AnyVtable) (h : Heap) (self : ℕ)
      → (T.type_id ≡ U.type_id → T ≡ U)
      → IsAny v obj h
      → IsPlace st self
      → ((T ≡ U) × Granted v obj self h) ⊎ ((T ≢ U) × Refused U obj self h)
  unfolding downcast_ref downcast_mut downcast
  downcast_cases U v obj h self unique any at = elim (Bool-cases (T.type_id == U.type_id)) [
    | inl same ↦ inl (unique (ground arith), granted v obj h self any at)
    | inr other ↦
        let miss : (obj.vtable.type_id == U.type_id) ≡ false = rw (any.vtable) other in
        inr (
          λ e. ne-self T.type_id (rw (← e) at other),
          record { by_ref = rw miss refl; by_mut = rw miss refl; by_value = rw miss refl },
        )
  ]
    where
      ne-self : (n : ℕ) → (n == n) ≢ false
      ne-self n e = ground arith

  -- A new object that is cast back to its type gives the value back, and leaves the heap and the
  -- record of destructors as they were.
  pub downcast-new :
      (v : Bytes) (h : Heap) (self : ℕ)
      → length v ≡ T.size
      → IsPlace st self
      → (new st (any_vtable T) T v >>= λ obj. downcast st T self obj) h ≡ ok (inl v) h
  unfolding new
  downcast-new v h self len at = finish (law.new_lem v h len)
    where
      finish :
          {r : Outcome S}
          → Returns
              (λ s h'.
                law.Stores v s h'.blocks
                × (release (law.owned s) h' ≡ h)
                × IsFresh (law.owned s) h h')
              r
          → and_then
              (and_then r (λ s. pure (record { storage = s; vtable = any_vtable T })))
              (λ obj. downcast st T self obj)
            ≡ ok (inl v) h
      finish (returns {a = s} {h = h'} (stored, restores, fresh)) =
          (granted v (record { storage = s; vtable = any_vtable T }) h' self
            (record { vtable = refl; stores = stored }) at).by_value
          ∙ ap (λ k. ok (inl v) k) restores

  -- What is written through the reference of `downcast_mut` becomes the value of the object, and the
  -- rest of the heap stays as it is.
  pub downcast_mut-write :
      (v w : Bytes) (obj : DynObject S AnyVtable) (h : Heap) (self : ℕ) (p : Ptr)
      → IsAny v obj h
      → IsPlace st self
      → length w ≡ T.size
      → downcast_mut st T self obj h ≡ ok (some p) h
      → Returns
          (λ c k.
            let written : DynObject S AnyVtable = record obj {
              storage = st.with_cells obj.storage c;
            } in
            IsAny w written k
            × (release (law.owned written.storage) k ≡ release (law.owned obj.storage) h))
          (write_ref T (st.place self obj.storage) p w h)
  unfolding downcast_mut
  downcast_mut-write v w obj h self p any at len e =
      let (q, e1, e2, e3, e4, got) = law.access v obj.storage h self any.stores at in
      let hit : (obj.vtable.type_id == T.type_id) ≡ true = rw any.vtable (==-refl T.type_id) in
      let found : ok (some q) h ≡ ok (some p) h = rw (hit, e4) at e in
      let target : st.as_mut T self obj.storage h ≡ ok p h = ground (arith, e4) in
      weaken (law.write_lem v w obj.storage h self p any.stores at len target)
        λ c k (stored, same, rest). (record { vtable = any.vtable; stores = stored }, rw same rest)

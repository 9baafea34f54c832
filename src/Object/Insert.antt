-- ===== src/Object/Insert.antt =====
-- `DynObject::insert`: the object that was in the option is dropped.
use dyn_utils.Prelude.{ℕ, ◌≡◌, ap, ◌∙◌, none, some, length}
use dyn_utils.Memory.{
  Bytes, RustType, Heap, Outcome, and_then, pure, ◌>>=◌, ◌>>◌, Ptr, load, release, release_comm,
}
use dyn_utils.Memory.Returns.{Returns, returns}
use dyn_utils.Storage.{Storage, IsPlace, IsFresh, IsStorage}
use dyn_utils.Storage.Frame.{Stores-fresh, owned-ne_fresh, Stores-release}
use dyn_utils.Object.{DynTrait, IsVtable, DynObject, drop, insert}
use dyn_utils.Object.Laws.{Holds, destroyed, new_lem, drop_lem}

module _ {S V : Type 0} {st : Storage S} (dt : DynTrait V) {T : RustType}
    (law : IsStorage st T) where
  -- The result of `insert`: the new object holds the value and the reference leads to it, and when
  -- the object's own memory is put aside the heap is `rest`.
  pub record Inserted (v : Bytes) (self : ℕ) (rest : Heap) (r : DynObject S V × Ptr) (k : Heap)
      : Type 0 where
    pub holds : Holds dt law v r.0 k.blocks
    pub leads : load T (st.place self r.0.storage) r.1 k ≡ some v
    pub rest_same : release (law.owned r.0.storage) k ≡ rest

  finish :
      (v : Bytes) (self : ℕ) (obj : DynObject S V) (k rest : Heap)
      → IsPlace st self
      → Holds dt law v obj k.blocks
      → release (law.owned obj.storage) k ≡ rest
      → Returns (Inserted v self rest) ((st.as_mut T self obj.storage >>= λ p. pure (obj, p)) k)
  finish v self obj k rest at holds same =
      let (p, e1, e2, e3, e4, got) = law.access v obj.storage k self holds.stores at in
      rw e4 (returns (record { holds = holds; leads = got; rest_same = same }))

  -- Into an empty option `insert` puts a new object, and leaves the rest of the heap as it was.
  pub insert-none :
      (vt : V) (v : Bytes) (h : Heap) (self : ℕ)
      → IsVtable dt T vt
      → length v ≡ T.size
      → IsPlace st self
      → Returns (Inserted v self h) (insert st dt vt self none T v h)
  unfolding insert
  insert-none vt v h self is len at = go (new_lem dt law vt v h is len)
    where
      go :
          {r : Outcome (DynObject S V)}
          → Returns
              (λ obj h'.
                Holds dt law v obj h'.blocks
                × (release (law.owned obj.storage) h' ≡ h)
                × IsFresh (law.owned obj.storage) h h')
              r
          → Returns
              (Inserted v self h)
              (and_then r λ obj. (st.as_mut T self obj.storage >>= λ p. pure (obj, p)))
      go (returns {a = obj} {h = h'} (holds, restores, fresh)) =
          finish v self obj h' h at holds restores

  -- Into an option that holds an object of any type `insert` puts a new object, and drops the old
  -- one: its destructor runs once, on its value, and what it owned is freed.
  pub insert-some :
      {U : RustType} (old_law : IsStorage st U) (vt : V) (v u : Bytes) (old : DynObject S V)
      (h : Heap) (self : ℕ)
      → IsVtable dt T vt
      → length v ≡ T.size
      → Holds dt old_law u old h.blocks
      → IsPlace st self
      → Returns
          (Inserted v self (release (old_law.owned old.storage) (destroyed U u h)))
          (insert st dt vt self (some old) T v h)
  unfolding insert
  insert-some {U} old_law vt v u old h self is len old_holds at = go (new_lem dt law vt v h is len)
    where
      rest : Heap
      rest = release (old_law.owned old.storage) (destroyed U u h)

      go :
          {r : Outcome (DynObject S V)}
          → Returns
              (λ obj h'.
                Holds dt law v obj h'.blocks
                × (release (law.owned obj.storage) h' ≡ h)
                × IsFresh (law.owned obj.storage) h h')
              r
          → Returns (Inserted v self rest) (
              and_then r λ obj.
                (drop st dt self old >> (st.as_mut T self obj.storage >>= λ p. pure (obj, p))))
      go (returns {a = obj} {h = h'} (holds, restores, fresh)) =
          let there =
            Stores-fresh old_law u old.storage (law.owned obj.storage) h h' old_holds.stores
              fresh in
          let done =
            drop_lem dt old_law u old h' self (record { vtable = old_holds.vtable; stores = there })
              at in
          let k = destroyed U u h' in
          let kept =
            Stores-release law v obj.storage (old_law.owned old.storage) k holds.stores λ a o.
              owned-ne_fresh old_law u old.storage (law.owned obj.storage) h h' old_holds.stores
                fresh a o in
          rw done (
            finish v self obj (release (old_law.owned old.storage) k) rest at
              (record { vtable = holds.vtable; stores = kept })
              (release_comm (law.owned obj.storage) (old_law.owned old.storage) k
                ∙ ap (λ g. release (old_law.owned old.storage) (destroyed U u g)) restores))

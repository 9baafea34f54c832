-- ===== src/Iterator.antt =====
-- The objects of `dyn Iterator` of src/impls.rs.
pub mod Laws
pub mod Draining
pub mod Pool
use dyn_utils.Prelude.{ℕ, Option, List, [], ◌∷◌, length, ◌≡◌}
use dyn_utils.Memory.{Bytes, RustType, Layout, layout_of, Exec, pure, ◌>>=◌}
use dyn_utils.Storage.{Storage}
use dyn_utils.Object.{DropFn, drop_in_place_fn, DynTrait, DynObject}
use dyn_utils.Object.Call.{call_ref, call_mut}

-- A type that implements `Iterator`, by the three methods that the object has.
pub record IsIterator (T : RustType) (Item : Type 0) : Type 0 where
  pub next : Bytes → Bytes × Option Item
  pub size_hint : Bytes → ℕ × Option ℕ
  pub nth : ℕ → Bytes → Bytes × Option Item
  pub next_sized : (v : Bytes) → length v ≡ T.size → length (next v).0 ≡ T.size
  pub nth_sized : (n : ℕ) (v : Bytes) → length v ≡ T.size → length (nth n v).0 ≡ T.size

pub record IteratorVtable (S Item : Type 0) : Type 0 where
  pub drop_fn : Option DropFn
  pub layout : Layout
  pub next : ℕ → S → Exec (S × Option Item)
  pub size_hint : ℕ → S → Exec (ℕ × Option ℕ)
  pub nth : ℕ → S → ℕ → Exec (S × Option Item)

module _ {S Item : Type 0} where
  abbrev pub dyn_iterator : DynTrait (IteratorVtable S Item)
  dyn_iterator = record { vtable_drop = λ vt. vt.drop_fn; vtable_layout = λ vt. vt.layout }

  unfoldable pub iterator_vtable :
      Storage S → (T : RustType) → IsIterator T Item → IteratorVtable S Item
  iterator_vtable st T impl = record {
    drop_fn = drop_in_place_fn T;
    layout = layout_of T;
    next = call_mut st T st.as_mut impl.next;
    size_hint = call_ref st T impl.size_hint;
    nth = λ self s n. call_mut st T st.as_mut (impl.nth n) self s;
  }

-- The calls that a client can make, and the replies to them.
pub data Call : Type 0 where
  next size_hint : Call
  nth : ℕ → Call

pub data Reply (Item : Type 0) : Type 0 where
  item : Option Item → Reply Item
  hint : ℕ × Option ℕ → Reply Item

module _ {S Item : Type 0} where
  unfoldable pub next_of :
      ℕ
      → DynObject S (IteratorVtable S Item)
      → Exec (DynObject S (IteratorVtable S Item) × Option Item)
  next_of self obj = do
    (s, found) ← obj.vtable.next self obj.storage
    pure (record obj { storage = s }, found)

  unfoldable pub size_hint_of : ℕ → DynObject S (IteratorVtable S Item) → Exec (ℕ × Option ℕ)
  size_hint_of self obj = obj.vtable.size_hint self obj.storage

  unfoldable pub nth_of :
      ℕ
      → DynObject S (IteratorVtable S Item)
      → ℕ
      → Exec (DynObject S (IteratorVtable S Item) × Option Item)
  nth_of self obj n = do
    (s, found) ← obj.vtable.nth self obj.storage n
    pure (record obj { storage = s }, found)

  -- One call on an object, and any sequence of them.
  unfoldable pub call :
      ℕ
      → DynObject S (IteratorVtable S Item)
      → Call
      → Exec (DynObject S (IteratorVtable S Item) × Reply Item)
  unfolding next_of size_hint_of nth_of
  call self obj next = do (obj, found) ← next_of self obj; pure (obj, item found)
  call self obj size_hint = do bounds ← size_hint_of self obj; pure (obj, hint bounds)
  call self obj (nth n) = do (obj, found) ← nth_of self obj n; pure (obj, item found)

  unfoldable pub call_all :
      ℕ
      → DynObject S (IteratorVtable S Item)
      → List Call
      → Exec (DynObject S (IteratorVtable S Item) × List (Reply Item))
  call_all self obj [] = pure (obj, [])
  call_all self obj (c ∷ cs) = do
    (obj, reply) ← call self obj c
    (obj, replies) ← call_all self obj cs
    pure (obj, reply ∷ replies)

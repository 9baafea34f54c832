-- ===== src/Iterator/Pool.antt =====
-- A client that has any number of objects of `dyn Iterator`, of any types, in one heap.
pub mod Held
pub mod Steps
pub mod Laws
use mathlib.Core.Option.{map as option_map}
use dyn_utils.Prelude.{ℕ, zero, suc, ◌≡◌, Option, none, some, List, [], ◌∷◌, length}
use dyn_utils.Memory.{Bytes, RustType, Heap, Exec, pure, ◌>>=◌, ◌>>◌}
use dyn_utils.Storage.{Storage}
use dyn_utils.Object.{DynObject, new, drop, insert}
use dyn_utils.Object.Laws.{destroyed}
use dyn_utils.Iterator.{IsIterator, IteratorVtable, dyn_iterator, iterator_vtable, next_of}

-- An iterator of some type that is put into an object.
pub record Source (Item : Type 0) : Type 0 where
  pub source_type : RustType
  pub impl : IsIterator source_type Item
  pub value : Bytes
  pub sized : length value ≡ source_type.size

-- What the client does next: it makes an object, takes an item from one, drops one, or inserts a new
-- one in the place of one. It counts its objects from the one that it has used last.
pub data Op (Item : Type 0) : Type 0 where
  make : Source Item → Op Item
  take drop_at : ℕ → Op Item
  insert_at : ℕ → Source Item → Op Item

unfoldable pub extract {ℓ} : {A : Type ℓ} → ℕ → List A → Option (A × List A)
extract n [] = none
extract zero (x ∷ xs) = some (x, xs)
extract (suc n) (x ∷ xs) = option_map (λ p. (p.0, x ∷ p.1)) (extract n xs)

abbrev pub Obj : Type 0 → Type 0 → Type 0
Obj S Item = DynObject S (IteratorVtable S Item)

module _ {S Item : Type 0} (st : Storage S) (self : ℕ) where
  -- An object is moved to the address `self` when it is used. Without such an object nothing is
  -- done.
  unfoldable pub take_from :
      List (Obj S Item)
      → Option (Obj S Item × List (Obj S Item))
      → Exec (List (Obj S Item) × Option Item)
  take_from objs none = pure (objs, none)
  take_from objs (some (obj, rest)) = do (obj, found) ← next_of self obj; pure (obj ∷ rest, found)

  unfoldable pub drop_from :
      List (Obj S Item)
      → Option (Obj S Item × List (Obj S Item))
      → Exec (List (Obj S Item) × Option Item)
  drop_from objs none = pure (objs, none)
  drop_from objs (some (obj, rest)) = do drop st dyn_iterator self obj; pure (rest, none)

  -- `DynObject::insert` into an option with the object, or into an empty one.
  unfoldable pub insert_from :
      Source Item
      → List (Obj S Item)
      → Option (Obj S Item × List (Obj S Item))
      → Exec (List (Obj S Item) × Option Item)
  insert_from src objs none = do
    (obj, p) ←
        insert st dyn_iterator (iterator_vtable st src.source_type src.impl) self none
          src.source_type src.value
    pure (obj ∷ objs, none)
  insert_from src objs (some (old, rest)) = do
    (obj, p) ←
        insert st dyn_iterator (iterator_vtable st src.source_type src.impl) self (some old)
          src.source_type src.value
    pure (obj ∷ rest, none)

  unfoldable pub perform : Op Item → List (Obj S Item) → Exec (List (Obj S Item) × Option Item)
  unfolding take_from drop_from insert_from
  perform (make src) objs = do
    obj ← new st (iterator_vtable st src.source_type src.impl) src.source_type src.value
    pure (obj ∷ objs, none)
  perform (take n) objs = take_from objs (extract n objs)
  perform (drop_at n) objs = drop_from objs (extract n objs)
  perform (insert_at n src) objs = insert_from src objs (extract n objs)

  unfoldable pub perform_all :
      List (Op Item) → List (Obj S Item) → Exec (List (Obj S Item) × List (Option Item))
  perform_all [] objs = pure (objs, [])
  perform_all (op ∷ ops) objs = do
    (objs, found) ← perform op objs
    (objs, rest) ← perform_all ops objs
    pure (objs, found ∷ rest)

  -- At the end of its scope the client drops what it still has.
  unfoldable pub drop_all : List (Obj S Item) → Exec (Unit {0})
  drop_all [] = pure tt
  drop_all (obj ∷ objs) = do drop st dyn_iterator self obj; drop_all objs

-- What one operation makes of the iterators, the item that it gives, and the record after it.
pub record Effect (Item : Type 0) : Type 0 where
  pub sources : List (Source Item)
  pub found : Option Item
  pub after : Heap

-- The same client on the iterators themselves: those that it has, the items that it takes, and the
-- destructors that run, as a change of the heap that only adds to their record.
module _ {Item : Type 0} where
  unfoldable pub advance : Source Item → Source Item
  advance src = record src {
    value = (src.impl.next src.value).0;
    sized = src.impl.next_sized src.value src.sized;
  }

  abbrev pub ended : Source Item → Heap → Heap
  ended src h = destroyed src.source_type src.value h

  unfoldable pub taken :
      List (Source Item) → Heap → Option (Source Item × List (Source Item)) → Effect Item
  taken srcs h none = record { sources = srcs; found = none; after = h }
  taken srcs h (some (src, rest)) = record {
    sources = advance src ∷ rest;
    found = (src.impl.next src.value).1;
    after = h;
  }

  unfoldable pub dropped_from :
      List (Source Item) → Heap → Option (Source Item × List (Source Item)) → Effect Item
  dropped_from srcs h none = record { sources = srcs; found = none; after = h }
  dropped_from srcs h (some (src, rest)) = record {
    sources = rest;
    found = none;
    after = ended src h;
  }

  unfoldable pub inserted :
      Source Item
      → List (Source Item)
      → Heap
      → Option (Source Item × List (Source Item))
      → Effect Item
  inserted src srcs h none = record { sources = src ∷ srcs; found = none; after = h }
  inserted src srcs h (some (old, rest)) = record {
    sources = src ∷ rest;
    found = none;
    after = ended old h;
  }

  unfoldable pub effect : Op Item → List (Source Item) → Heap → Effect Item
  effect (make src) srcs h = record { sources = src ∷ srcs; found = none; after = h }
  effect (take n) srcs h = taken srcs h (extract n srcs)
  effect (drop_at n) srcs h = dropped_from srcs h (extract n srcs)
  effect (insert_at n src) srcs h = inserted src srcs h (extract n srcs)

  unfoldable pub items : List (Op Item) → List (Source Item) → Heap → List (Option Item)
  unfolding effect
  items [] srcs h = []
  items (op ∷ ops) srcs h = let e = effect op srcs h in e.found ∷ items ops e.sources e.after

  unfoldable pub all_ended : List (Source Item) → Heap → Heap
  all_ended [] h = h
  all_ended (src ∷ srcs) h = all_ended srcs (ended src h)

  -- The record once the client has done everything and dropped what it still had.
  unfoldable pub final : List (Op Item) → List (Source Item) → Heap → Heap
  unfolding effect all_ended
  final [] srcs h = all_ended srcs h
  final (op ∷ ops) srcs h = let e = effect op srcs h in final ops e.sources e.after

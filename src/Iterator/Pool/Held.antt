-- ===== src/Iterator/Pool/Held.antt =====
-- The invariant of a pool of objects in one heap: each is that of its iterator, and they own different
-- blocks, with which put aside the heap is as it was.
use mathlib.Core.Option.{map as option_map}
use dyn_utils.Prelude.{
  ℕ, zero, suc, ◌==◌, Bool-cases, inl, inr, ◌≡◌, ◌≢◌, refl, sym, subst, ◌∙◌, Option, none, some,
  List, [], ◌∷◌,
}
use dyn_utils.Memory.{RustType, Block, Heap, release, release_comm, find, without, find-without}
use dyn_utils.Storage.{Storage, IsStorage}
use dyn_utils.Storage.Frame.{Stores-release}
use dyn_utils.Iterator.Laws.{IsObject}
use dyn_utils.Iterator.Pool.{Obj, Source, ended, extract}

-- What is left of the blocks is among them.
find-in_whole :
    (k a : ℕ) (bs : List Block) (b : Block)
    → find a (without k bs) ≡ some b
    → (c : Block) × (find a bs ≡ some c)
unfolding find without
find-in_whole k a [] b found = cc
find-in_whole k a (c ∷ bs) b found = elim (Bool-cases (c.addr == a)) [
  | inl here ↦ (c, rw here refl)
  | inr other ↦ elim (Bool-cases (c.addr == k)) [
    | inl gone ↦ (b, rw other (rw gone at found))
    | inr kept ↦
        let below = rw kept at found in
        let (d, e) = find-in_whole k a bs b (rw other at below) in (d, rw other e)
  ]
]

-- A block that is none of the heap's.
abbrev IsNew : Option ℕ → Heap → Type 0
IsNew owned h = (a : ℕ) (b : Block) → find a h.blocks ≡ some b → owned ≢ some a

IsNew-release : (owned other : Option ℕ) (h : Heap) → IsNew owned h → IsNew owned (release other h)
IsNew-release owned none h fresh = fresh
IsNew-release owned (some k) h fresh =
    λ a b found. let (c, e) = find-in_whole k a h.blocks b found in fresh a c e

module _ {S Item : Type 0} {st : Storage S} (laws : (T : RustType) → IsStorage st T) where
  abbrev pub owns : Source Item → Obj S Item → Option ℕ
  owns src obj = (laws src.source_type).owned obj.storage

  abbrev pub IsOf : Source Item → Obj S Item → Heap → Type 0
  IsOf src obj h = IsObject (laws src.source_type) src.impl src.value obj h

  -- No object of the list owns this block.
  abbrev pub Apart : Option ℕ → List (Source Item) → List (Obj S Item) → Type 0
  Apart owned (src ∷ srcs) (obj ∷ objs) =
      ((a : ℕ) → owned ≡ some a → owns src obj ≢ some a) × Apart owned srcs objs
  Apart owned srcs objs = Unit

  -- These are the objects of the iterators in the heap, and with all that they own put aside the
  -- heap is `base`.
  pub data Held : List (Source Item) → List (Obj S Item) → Heap → Heap → Type 0 where
    nothing : {h : Heap} → Held [] [] h h
    also :
        {src : Source Item} {obj : Obj S Item} {srcs : List (Source Item)}
        {objs : List (Obj S Item)} {h base : Heap}
        → IsOf src obj h
        → Apart (owns src obj) srcs objs
        → Held srcs objs (release (owns src obj) h) base
        → Held (src ∷ srcs) (obj ∷ objs) h base

  -- The record of the destructors does not matter to the objects.
  pub Held-ended :
      (src : Source Item) {srcs : List (Source Item)} {objs : List (Obj S Item)} {h base : Heap}
      → Held srcs objs h base
      → Held srcs objs (ended src h) (ended src base)
  Held-ended src nothing = nothing
  Held-ended src (also is apart held) =
      also (record { vtable = is.vtable; stores = is.stores; len = is.len }) apart
        (Held-ended src held)

  -- An object that lies in what is left of a heap lies in the heap.
  IsOf-whole :
      (src : Source Item) (obj : Obj S Item) (other : Option ℕ) (h : Heap)
      → ((a : ℕ) → other ≡ some a → owns src obj ≢ some a)
      → IsOf src obj (release other h)
      → IsOf src obj h
  IsOf-whole src obj none h apart is = is
  IsOf-whole src obj (some k) h apart is = record {
    vtable = is.vtable;
    stores =
        (laws src.source_type).frame src.value obj.storage (release (some k) h).blocks h.blocks
          is.stores
          (λ a b o found.
            let ne : k ≢ a = λ same. apart k refl (rw same o) in
            sym (find-without k a h.blocks ne) ∙ found);
    len = is.len;
  }

  IsOf-release :
      (src : Source Item) (obj : Obj S Item) (other : Option ℕ) (h : Heap)
      → ((a : ℕ) → other ≡ some a → owns src obj ≢ some a)
      → IsOf src obj h
      → IsOf src obj (release other h)
  IsOf-release src obj other h apart is = record {
    vtable = is.vtable;
    stores = Stores-release (laws src.source_type) src.value obj.storage other h is.stores apart;
    len = is.len;
  }

  -- What `extract` gives of the iterators and of the objects: the same of both.
  pub data Extracted (srcs : List (Source Item)) (objs : List (Obj S Item)) (h base : Heap)
      : Option (Source Item × List (Source Item))
        → Option (Obj S Item × List (Obj S Item))
        → Type 0 where
    neither : Extracted srcs objs h base none none
    both :
        {src : Source Item} {obj : Obj S Item} {srcs' : List (Source Item)}
        {objs' : List (Obj S Item)}
        → IsOf src obj h
        → Apart (owns src obj) srcs' objs'
        → Held srcs' objs' (release (owns src obj) h) base
        → ((owned : Option ℕ)
            → Apart owned srcs objs
            → ((a : ℕ) → owned ≡ some a → owns src obj ≢ some a) × Apart owned srcs' objs')
        → Extracted srcs objs h base (some (src, srcs')) (some (obj, objs'))

  Extracted-also :
      {src : Source Item} {obj : Obj S Item} {srcs : List (Source Item)} {objs : List (Obj S Item)}
      {h base : Heap} {x : Option (Source Item × List (Source Item))}
      {y : Option (Obj S Item × List (Obj S Item))}
      → IsOf src obj h
      → Apart (owns src obj) srcs objs
      → Extracted srcs objs (release (owns src obj) h) base x y
      → Extracted
          (src ∷ srcs)
          (obj ∷ objs)
          h
          base
          (option_map (λ p. (p.0, src ∷ p.1)) x)
          (option_map (λ p. (p.0, obj ∷ p.1)) y)
  Extracted-also is apart neither = neither
  Extracted-also {src} {obj} {h = h} {base = base} is apart
        (both {src = src1} {obj = obj1} {srcs' = srcs'} {objs' = objs'} is1 apart1 held keeps) =
      let (ne, apart') = keeps (owns src obj) apart in
      let swapped = λ (a : ℕ) (o : owns src1 obj1 ≡ some a) (e : owns src obj ≡ some a). ne a e o in
      both (IsOf-whole src1 obj1 (owns src obj) h ne is1) (swapped, apart1)
        (also (IsOf-release src obj (owns src1 obj1) h swapped is) apart' (
          subst (λ g. Held srcs' objs' g base) (release_comm (owns src1 obj1) (owns src obj) h)
            held))
        (λ owned (first, rest). let (n, r) = keeps owned rest in (n, (first, r)))

  pub extract_lem :
      (n : ℕ) {srcs : List (Source Item)} {objs : List (Obj S Item)} {h base : Heap}
      → Held srcs objs h base
      → Extracted srcs objs h base (extract n srcs) (extract n objs)
  unfolding extract
  extract_lem n nothing = neither
  extract_lem zero (also is apart held) = both is apart held (λ owned others. others)
  extract_lem (suc n) (also is apart held) = Extracted-also is apart (extract_lem n held)

  pub IsNew-Apart :
      (owned : Option ℕ) {srcs : List (Source Item)} {objs : List (Obj S Item)} {h base : Heap}
      → Held srcs objs h base
      → IsNew owned h
      → Apart owned srcs objs
  IsNew-Apart owned nothing fresh = tt
  IsNew-Apart owned (also {src} {obj} {h = h} is apart held) fresh = (
    λ a new old.
        let (b, found) =
          (laws src.source_type).live src.value obj.storage h.blocks a is.stores old in
        fresh a b found new,
    IsNew-Apart owned held (IsNew-release owned (owns src obj) h fresh),
  )

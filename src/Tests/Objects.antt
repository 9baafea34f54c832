-- ===== src/Tests/Objects.antt =====
-- Objects on concrete values, and the theorems at them.
use dyn_utils.Prelude.{◌≡◌, ◌≢◌, ◌⊎◌, refl, some, [], ◌∷◌, arith, inl}
use dyn_utils.Memory.{
  Bytes, RustType, Heap, ok, init_cells, ◌>>=◌, block_at, Block, Boxed, allocated, release, find,
  read_cells, box_new, write_ref, load, owned_by_box,
}
use dyn_utils.Memory.Returns.{Returns, at_outcome}
use dyn_utils.Storage.{IsStorage, IsPlace}
use dyn_utils.Storage.RawOrBox.{RawOrBox, box, raw_or_box_storage, raw_or_box_from_box}
use dyn_utils.Storage.Box
use dyn_utils.Storage.Box.{box_storage}
use dyn_utils.Storage.Raw.{can_store}
use dyn_utils.Storage.RawOrBox.Laws.{raw_or_box_laws}
use dyn_utils.Object
use dyn_utils.Object.{DynObject, drop, new, from_box, insert}
use dyn_utils.Object.Laws.{destroyed, drop-new, drop-from_box}
use dyn_utils.Object.Insert.{Inserted, insert-some}
use dyn_utils.Any.{AnyVtable, dyn_any, any_vtable, downcast, downcast_mut}
use dyn_utils.Any.Laws.{
  any_vtable-IsVtable, IsAny, Granted, Refused, downcast_cases, downcast-new, downcast_mut-write,
}
use dyn_utils.Tests.Inputs.{bump, empty_heap, triple, word, word_bytes, variant}

abbrev pub law : (T : RustType) → IsStorage (raw_or_box_storage bump variant) T
law T = (raw_or_box_laws bump variant T).0

-- the address of the objects
pub IsPlace-64 : IsPlace (raw_or_box_storage bump variant) 64
unfolding raw_or_box_storage
IsPlace-64 = (omega arith, refl)

-- A boxed word is dropped: its destructor has run and its block is gone.
drop-new_example :
    (new (raw_or_box_storage bump variant) (any_vtable word) word word_bytes >>= λ obj.
    drop (raw_or_box_storage bump variant) dyn_any 64 obj)
      empty_heap
    ≡ ok tt (destroyed word word_bytes empty_heap)
drop-new_example =
    drop-new dyn_any (law word) (any_vtable word) word_bytes empty_heap 64
      (any_vtable-IsVtable word) refl IsPlace-64

abbrev word_block : Block
word_block = record {
  addr = 16;
  layout = record { size = 8; align = 8 };
  cells = init_cells word_bytes;
}

abbrev one_box : Heap
one_box = record { blocks = word_block ∷ []; log = [] }

word-Boxed : Boxed word word_bytes 16 (word_block ∷ [])
unfolding find read_cells
word-Boxed =
    allocated (omega arith) word_block
      (record { found = refl; layout = refl; reads = refl; room = refl })

drop-from_box_example :
    (from_box
          (raw_or_box_storage bump variant)
          (raw_or_box_from_box bump variant)
          (any_vtable word)
          word
          16
        >>= λ obj. drop (raw_or_box_storage bump variant) dyn_any 64 obj)
      one_box
    ≡ ok tt (release (owned_by_box word 16) (destroyed word word_bytes one_box))
drop-from_box_example =
    drop-from_box dyn_any (law word) (raw_or_box_from_box bump variant)
      (raw_or_box_laws bump variant word).1 (any_vtable word) word_bytes 16 one_box 64
      (any_vtable-IsVtable word) refl (record { ne_null = omega arith; aligned = refl }) word-Boxed
      IsPlace-64

-- the object of a word, in the heap that its construction leaves
abbrev pub word_object : DynObject RawOrBox AnyVtable
word_object = record { storage = box (record { addr = 8 }); vtable = any_vtable word }

abbrev pub word_heap : Heap
word_heap = record { blocks = record word_block { addr = 8 } ∷ []; log = [] }

pub word_stored : (law word).Stores word_bytes word_object.storage word_heap.blocks
unfolding raw_or_box_storage box_new can_store Box.new
word_stored = (at_outcome ((law word).new_lem word_bytes empty_heap refl)).0

word-IsAny : IsAny (law word) word_bytes word_object word_heap
word-IsAny = record { vtable = refl; stores = word_stored }

word-Holds : Object.Laws.Holds dyn_any (law word) word_bytes word_object word_heap.blocks
word-Holds = record { vtable = any_vtable-IsVtable word; stores = word_stored }

-- A triple replaces the word, whose destructor runs and whose block goes.
insert-some_example :
    Returns
      (Inserted dyn_any
        (law triple)
        (7 ∷ 8 ∷ 9 ∷ [])
        64
        (release ((law word).owned word_object.storage) (destroyed word word_bytes word_heap)))
      (insert
        (raw_or_box_storage bump variant)
        dyn_any
        (any_vtable triple)
        64
        (some word_object)
        triple
        (7 ∷ 8 ∷ 9 ∷ [])
        word_heap)
insert-some_example =
    insert-some dyn_any (law triple) (law word) (any_vtable triple) (7 ∷ 8 ∷ 9 ∷ []) word_bytes
      word_object word_heap 64 (any_vtable-IsVtable triple) refl word-Holds IsPlace-64

-- A word is no triple.
downcast_cases_example :
    ((word ≡ triple) × Granted (law word) word_bytes word_object 64 word_heap)
    ⊎ ((word ≢ triple) × Refused (law word) triple word_object 64 word_heap)
downcast_cases_example =
    downcast_cases (law word) triple word_bytes word_object word_heap 64 (λ e. absurd (omega arith))
      word-IsAny IsPlace-64

downcast-new_example :
    (new (raw_or_box_storage bump variant) (any_vtable word) word word_bytes >>= λ obj.
    downcast (raw_or_box_storage bump variant) word 64 obj)
      empty_heap
    ≡ ok (inl word_bytes) empty_heap
downcast-new_example = downcast-new (law word) word_bytes empty_heap 64 refl IsPlace-64

abbrev pub other_bytes : Bytes
other_bytes = 9 ∷ 9 ∷ 9 ∷ 9 ∷ 9 ∷ 9 ∷ 9 ∷ 9 ∷ []

downcast_mut-write_example :
    Returns
      (λ c k.
        let written : DynObject RawOrBox AnyVtable = record word_object {
          storage = (raw_or_box_storage bump variant).with_cells word_object.storage c;
        } in
        IsAny (law word) other_bytes written k
        × (release ((law word).owned written.storage) k
            ≡ release ((law word).owned word_object.storage) word_heap))
      (write_ref word
        ((raw_or_box_storage bump variant).place 64 word_object.storage)
        (block_at 8)
        other_bytes
        word_heap)
unfolding downcast_mut raw_or_box_storage box_storage can_store load find read_cells
downcast_mut-write_example =
    downcast_mut-write (law word) word_bytes other_bytes word_object word_heap 64 (block_at 8)
      word-IsAny IsPlace-64 refl refl

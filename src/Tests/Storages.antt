-- ===== src/Tests/Storages.antt =====
-- The storages on concrete values.
use dyn_utils.Prelude.{◌≡◌, refl, ◌≤◌, ◌↔◌, ◌⊎◌, true, length, none, some, [], ◌∷◌, inl}
use dyn_utils.Memory.{
  Bytes, Heap, Layout, ok, fault, build_error, init_cells, write_cells, box_new, release,
}
use dyn_utils.Storage.{IsStorage, IsFromBox}
use dyn_utils.Storage.Raw.{Raw, can_store, new_unchecked, raw_storage}
use dyn_utils.Storage.Raw
use dyn_utils.Storage.Raw.Laws.{raw_laws, new_cases, Stores}
use dyn_utils.Storage.Box
use dyn_utils.Storage.Default.{default_params}
use dyn_utils.Storage.Default.Laws.{default_storage_cases}
use dyn_utils.Memory.Returns.{Returns}
use dyn_utils.Storage.Box.{Box, box_storage, box_from_box}
use dyn_utils.Storage.Box.Laws.{box_laws}
use dyn_utils.Storage.RawOrBox
use dyn_utils.Storage.RawOrBox.{RawOrBox, raw, box, raw_or_box_storage, raw_or_box_from_box, new}
use dyn_utils.Storage.RawOrBox.Laws.{raw_or_box_laws, variant_of_type, is_raw}
use dyn_utils.Tests.Inputs.{bump, empty_heap, triple, word, word_bytes, small, variant}

-- Three bytes fit into `Raw<4, 2>` and stay in place; eight go to the heap.
triple_in_place :
    RawOrBox.new bump small triple (7 ∷ 8 ∷ 9 ∷ []) empty_heap
    ≡ ok (raw (record { data_cells = some 7 ∷ some 8 ∷ some 9 ∷ none ∷ [] })) empty_heap
unfolding RawOrBox.new Raw.new_unchecked can_store write_cells
triple_in_place = refl

word_boxed :
    RawOrBox.new bump small word word_bytes empty_heap
    ≡ ok (box (record { addr = 8 })) (record {
      blocks =
          record {
            addr = 8;
            layout = record { size = 8; align = 8 };
            cells = init_cells word_bytes;
          }
          ∷ [];
      log = [];
    })
unfolding RawOrBox.new Raw.can_store Box.new box_new
word_boxed = refl

raw_laws_example :
    (law : IsStorage (raw_storage small) triple) × ((s : Raw) → law.owned s ≡ none)
    × ((s : Raw) (layout : Layout) (h : Heap)
        → (raw_storage small).drop_in_place s layout h ≡ ok tt h)
    × ((v : Bytes) (h h' : Heap) (s : Raw)
        → length v ≡ 3
        → (raw_storage small).new triple v h ≡ ok s h'
        → h' ≡ h)
unfolding can_store
raw_laws_example = raw_laws small triple refl

box_laws_example : (law : IsStorage (box_storage bump) word) × IsFromBox box_from_box law
box_laws_example = box_laws bump word

raw_or_box_laws_example :
    (law : IsStorage (raw_or_box_storage bump variant) word) × IsFromBox
      (raw_or_box_from_box bump variant)
      law
raw_or_box_laws_example = raw_or_box_laws bump variant word

variant_of_type_example :
    (is_raw (raw (record { data_cells = some 7 ∷ some 8 ∷ some 9 ∷ none ∷ [] })) ≡ true)
    ↔ ((3 ≤ 4) × (1 ≤ 2))
unfolding can_store new_unchecked new write_cells
variant_of_type_example =
    variant_of_type bump small triple (7 ∷ 8 ∷ 9 ∷ []) empty_heap empty_heap
      (raw (record { data_cells = some 7 ∷ some 8 ∷ some 9 ∷ none ∷ [] })) (inl refl)

new_cases_example :
    ((3 ≤ 4)
      × (1 ≤ 2)
      × ((s : Raw) × (Raw.new small triple (7 ∷ 8 ∷ 9 ∷ []) empty_heap ≡ ok s empty_heap)
          × Stores small triple (7 ∷ 8 ∷ 9 ∷ []) s []))
    ⊎ (¬ ((3 ≤ 4) × (1 ≤ 2))
        × (Raw.new small triple (7 ∷ 8 ∷ 9 ∷ []) empty_heap ≡ fault build_error))
new_cases_example = new_cases small triple (7 ∷ 8 ∷ 9 ∷ []) empty_heap refl

-- Where a usize has eight bytes, a word has room in the default storage.
default_storage_cases_example :
    (((8 ≤ 1024) × (8 ≤ 8))
      × ((r : Raw) × (RawOrBox.new bump (default_params 8 3) word word_bytes empty_heap
            ≡ ok (raw r) empty_heap)
          × (RawOrBox.new_raw (default_params 8 3) word word_bytes empty_heap
              ≡ ok (raw r) empty_heap)
          × Stores (default_params 8 3) word word_bytes r []))
    ⊎ (¬ ((8 ≤ 1024) × (8 ≤ 8))
        × Returns
            (λ s k.
              (b : Box) × (s ≡ box b)
              × (box_laws bump word).0.Stores word_bytes b k.blocks
              × (release ((box_laws bump word).0.owned b) k ≡ empty_heap))
            (RawOrBox.new bump (default_params 8 3) word word_bytes empty_heap)
        × (RawOrBox.new_raw (default_params 8 3) word word_bytes empty_heap ≡ fault build_error))
default_storage_cases_example = default_storage_cases bump 8 3 word word_bytes empty_heap refl

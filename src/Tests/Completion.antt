-- ===== src/Tests/Completion.antt =====
-- Futures in objects that are driven to their output.
use dyn_utils.Prelude.{ℕ, ◌≡◌, refl, some, none, [], ◌∷◌}
use dyn_utils.Memory.{write_cells}
use dyn_utils.Memory.Returns.{Returns, at_outcome}
use dyn_utils.Storage.Raw
use dyn_utils.Storage.Raw.{can_store}
use dyn_utils.Storage.RawOrBox
use dyn_utils.Storage.RawOrBox.{RawOrBox, raw, raw_or_box_storage}
use dyn_utils.Object.{DynObject}
use dyn_utils.Future.{ready, FutureVtable, future_vtable, poll}
use dyn_utils.Future.Laws.{IsObject, Became, final}
use dyn_utils.Future.Completion.{drive-ready}
use dyn_utils.MaybeSync.{drive}
use dyn_utils.Tests.Inputs.{bump, empty_heap, byte, variant}
use dyn_utils.Tests.Objects.{law, IsPlace-64}
use dyn_utils.Tests.Futures.{countdown_future}

-- a countdown from 1, stored in place
abbrev countdown_object : DynObject RawOrBox (FutureVtable RawOrBox ℕ ℕ)
countdown_object = record {
  storage = raw (record { data_cells = some 1 ∷ none ∷ none ∷ none ∷ [] });
  vtable = future_vtable (raw_or_box_storage bump variant) byte countdown_future;
}

countdown-stored : (law byte).Stores (1 ∷ []) countdown_object.storage []
unfolding raw_or_box_storage RawOrBox.new Raw.new_unchecked can_store write_cells
countdown-stored = (at_outcome ((law byte).new_lem (1 ∷ []) empty_heap refl)).0

countdown-IsObject : IsObject (law byte) countdown_future (1 ∷ []) countdown_object empty_heap
countdown-IsObject = record { vtable = refl; stores = countdown-stored; len = refl }

-- The first poll is pending, the second is ready, and the third is not made.
drive-ready_example :
    Returns
      (λ r k.
        Became (law byte) countdown_future (0 ∷ []) countdown_object empty_heap r.0 k
        × (r.1 ≡ ready 6))
      (drive (poll 64) countdown_object (5 ∷ 6 ∷ 7 ∷ []) empty_heap)
unfolding final
drive-ready_example =
    drive-ready (law byte) countdown_future (5 ∷ []) (7 ∷ []) 6 6 (1 ∷ []) countdown_object
      empty_heap 64 countdown-IsObject IsPlace-64 (refl, tt) refl

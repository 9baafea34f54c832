-- ===== src/Storage/Frame.antt =====
-- Storages do not disturb one another.
use dyn_utils.Prelude.{ℕ, ◌≡◌, ◌≢◌, refl, Option, none, some}
use dyn_utils.Memory.{Bytes, RustType, Heap, find-without, release}
use dyn_utils.Storage.Trait.{Storage, IsStorage, IsFresh}

module _ {S : Type 0} {st : Storage S} {T : RustType} (law : IsStorage st T) where
  -- A value survives a construction elsewhere, and the new storage owns another block.
  pub Stores-fresh :
      (v : Bytes) (s : S) (owned : Option ℕ) (h h' : Heap)
      → law.Stores v s h.blocks
      → IsFresh owned h h'
      → law.Stores v s h'.blocks
  Stores-fresh v s owned h h' st fresh =
      law.frame v s h.blocks h'.blocks st λ a b o found. (fresh a b found).0

  pub owned-ne_fresh :
      (v : Bytes) (s : S) (owned : Option ℕ) (h h' : Heap)
      → law.Stores v s h.blocks
      → IsFresh owned h h'
      → (a : ℕ) → law.owned s ≡ some a
      → owned ≢ some a
  owned-ne_fresh v s owned h h' st fresh a o =
      let (b, found) = law.live v s h.blocks a st o in (fresh a b found).1

  -- A value survives the release of a block that its storage does not own.
  pub Stores-release :
      (v : Bytes) (s : S) (other : Option ℕ) (h : Heap)
      → law.Stores v s h.blocks
      → ((a : ℕ) → other ≡ some a → law.owned s ≢ some a)
      → law.Stores v s (release other h).blocks
  Stores-release v s none h st apart = st
  Stores-release v s (some k) h st apart = law.frame v s h.blocks _ st λ a b o found.
      let ne : k ≢ a = λ same. apart k refl (rw same o) in rw (find-without k a h.blocks ne) found

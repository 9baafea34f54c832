-- ===== src/Storage/Default/Laws.antt =====
-- What `DefaultStorage` has room for.
use dyn_utils.Prelude.{ℕ, ◌*◌, ◌^◌, ◌≤◌, ◌≡◌, refl, ◌⊎◌, inl, inr, Bool-cases, true, false, length}
use dyn_utils.Memory.{Bytes, RustType, align_of, Heap, Allocator, ok, fault, build_error, release}
use dyn_utils.Memory.Returns.{Returns, returns, bind}
use dyn_utils.Storage.Raw.{Raw, can_store}
use dyn_utils.Storage.Raw
use dyn_utils.Storage.Raw.Laws.{Stores, can_store_iff, new_unchecked_lem}
use dyn_utils.Storage.Box.{Box, box_storage}
use dyn_utils.Storage.Box.Laws.{box_laws}
use dyn_utils.Storage.RawOrBox.{raw, box, new, new_raw}
use dyn_utils.Storage.Default.{default_params}

module _ (al : Allocator) (usize_size usize_align_exp : ℕ) (T : RustType) where
  -- the type has at most the size of 128 words and the alignment of one
  abbrev pub HasRoom : Type 0
  HasRoom = (T.size ≤ 128 * usize_size) × (align_of T ≤ 2 ^ usize_align_exp)

  -- A value of a type of at most 128 words, with no greater alignment than a word, is stored in
  -- place, with no effect on the heap, whether or not the crate has an allocator. A value of any
  -- other type is stored in a new box, and giving that back leaves the heap as it was; without an
  -- allocator it stops the build.
  pub default_storage_cases :
      (v : Bytes) (h : Heap)
      → length v ≡ T.size
      → (HasRoom
          × ((r : Raw) × (new al (default_params usize_size usize_align_exp) T v h ≡ ok (raw r) h)
              × (new_raw (default_params usize_size usize_align_exp) T v h ≡ ok (raw r) h)
              × Stores (default_params usize_size usize_align_exp) T v r h.blocks))
        ⊎ (¬ HasRoom
            × Returns
                (λ s k.
                  (b : Box) × (s ≡ box b)
                  × (box_laws al T).0.Stores v b k.blocks
                  × (release ((box_laws al T).0.owned b) k ≡ h))
                (new al (default_params usize_size usize_align_exp) T v h)
            × (new_raw (default_params usize_size usize_align_exp) T v h ≡ fault build_error))
  unfolding new new_raw Raw.new box_storage
  default_storage_cases v h len =
      let P = default_params usize_size usize_align_exp in
      let room = can_store_iff P T in
      elim (Bool-cases (can_store P T)) [
        | inl fits ↦
            let (r, made, stored) = new_unchecked_lem P T v h fits len in
            inl (room.0 fits, (r, rw (fits, made) refl, rw (fits, made) refl, stored))
        | inr no_fit ↦ inr (
          λ le. true-ne-false (rw no_fit at (room.1 le)),
          rw no_fit (bind ((box_laws al T).0.new_lem v h len) λ b k p. returns (b, refl, p.0, p.1)),
          rw no_fit refl,
        )
      ]
    where
      true-ne-false : false ≡ true → ⊥
      true-ne-false e = cc

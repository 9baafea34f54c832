-- ===== src/Storage/Raw/Laws.antt =====
-- `Raw` keeps the contract of a storage for every type that fits, and refuses the others.
use dyn_utils.Prelude.{
  ℕ, ◌≤◌, ◌≡◌, refl, sym, ◌∙◌, ◌↔◌, ◌⊎◌, inl, inr, Bool-cases, true, false, none, some, arith,
  length, List, length-replicate, aligned_pow, aligned_down, subst,
}
use dyn_utils.Memory.{
  Bytes, uninit, read_cells, write_cells_lem, RustType, align_of, Layout, Block, Heap, ok, fault,
  build_error, inline_at, load, Fits, load-cells, write_ref-inline,
}
use dyn_utils.Memory.Returns.{returns}
use dyn_utils.Storage.Trait.{IsStorage, IsPlace, deref_as}
use dyn_utils.Storage.Raw.{
  Params, align, Raw, can_store, new_unchecked, new, drop_in_place, place, raw_storage,
}

-- `can_store` is true exactly if neither the size nor the alignment exceeds the parameters.
pub can_store_iff :
    (P : Params) (T : RustType)
    → (can_store P T ≡ true) ↔ ((T.size ≤ P.size) × (align_of T ≤ align P))
unfolding can_store
can_store_iff P T = ground arith

module _ (P : Params) (T : RustType) where
  -- the array holds the value in its first cells
  abbrev pub Stores : Bytes → Raw → List Block → Type 0
  Stores v s bs = (read_cells T.size s.data_cells ≡ some v) × (length s.data_cells ≡ P.size)

  -- A value of a type that fits is written in bounds and aligned, with no effect on the heap.
  pub new_unchecked_lem :
      (v : Bytes) (h : Heap)
      → can_store P T ≡ true
      → length v ≡ T.size
      → (s : Raw) × (new_unchecked P T v h ≡ ok s h) × Stores v s h.blocks
  unfolding new_unchecked
  new_unchecked_lem v h fits len =
      let bounds = (can_store_iff P T).0 fits in
      let room : length (uninit P.size) ≡ P.size = length-replicate P.size none in
      let (c, wrote, reads, same) = write_cells_lem v (uninit P.size) (omega arith) in
      (
        record { data_cells = c },
        ground (arith, wrote, aligned_pow T.align_exp P.align_exp bounds.1),
        (subst (λ n. read_cells n c ≡ some v) len reads, omega arith),
      )

  -- `Raw::new` has two outcomes: a value of a type that fits is stored, with no effect on the heap,
  -- and any other type stops the build.
  pub new_cases :
      (v : Bytes) (h : Heap)
      → length v ≡ T.size
      → ((T.size ≤ P.size)
          × (align_of T ≤ align P)
          × ((s : Raw) × (new P T v h ≡ ok s h) × Stores v s h.blocks))
        ⊎ (¬ ((T.size ≤ P.size) × (align_of T ≤ align P)) × (new P T v h ≡ fault build_error))
  unfolding new
  new_cases v h len = elim (Bool-cases (can_store P T)) [
    | inl fits ↦
        let (size_le, align_le) = (can_store_iff P T).0 fits in
        let (s, made, stored) = new_unchecked_lem v h fits len in
        inl (size_le, align_le, (s, rw (fits, made) refl, stored))
    | inr no_fit ↦
        inr (λ le. true-ne-false (rw no_fit at (sym ((can_store_iff P T).1 le))), rw no_fit refl)
  ]
    where
      true-ne-false : true ≡ false → ⊥
      true-ne-false e = cc

  module _ (fits : can_store P T ≡ true) where
    place-Fits : (self : ℕ) → IsPlace (raw_storage P) self → Fits T self
    unfolding raw_storage
    place-Fits self at = record {
      ne_null = at.0;
      aligned = aligned_down self T.align_exp P.align_exp at.1 ((can_store_iff P T).0 fits).1;
    }

    load_lem :
        (v : Bytes) (s : Raw) (h : Heap) (self : ℕ)
        → Stores v s h.blocks
        → Fits T self
        → load T (place self s) (inline_at self) h ≡ some v
    load_lem v s h self st f =
        load-cells T (place self s) (inline_at self) h s.data_cells v f (ground arith) st.0

    -- For every type that fits, `Raw` keeps the contract of a storage, and this with no memory of
    -- the heap: whatever it holds, it owns none. `new` of a value of the type's size, when it
    -- succeeds, leaves the heap as it was, and `drop_in_place` succeeds and does so for any layout.
    pub raw_laws :
        (law : IsStorage (raw_storage P) T) × ((s : Raw) → law.owned s ≡ none)
        × ((s : Raw) (layout : Layout) (h : Heap)
            → (raw_storage P).drop_in_place s layout h ≡ ok tt h)
        × ((v : Bytes) (h h' : Heap) (s : Raw)
            → length v ≡ T.size
            → (raw_storage P).new T v h ≡ ok s h'
            → h' ≡ h)
    unfolding raw_storage new deref_as drop_in_place
    raw_laws = (
      record {
        Stores = Stores;
        owned = λ s. none;
        new_lem = λ v h len.
            let (s, made, st) = new_unchecked_lem v h fits len in
            rw (fits, made) (returns (st, refl, λ a b e. (e, λ k. cc)));
        access = λ v s h self st at.
            let got = load_lem v s h self st (place-Fits self at) in
            (inline_at self, ground arith, refl, ground (arith, got), ground (arith, got), got);
        write_lem = λ v w s h self p st at len e.
            let (c, wrote, reads, same) =
              write_ref-inline T (place self s) w h (place-Fits self at) len
                (omega (arith, (can_store_iff P T).0 fits)) in
            let target : p ≡ inline_at self =
              ground (arith, load_lem v s h self st (place-Fits self at)) in
            rw (target, wrote) (returns ((reads, same ∙ st.1), refl, refl));
        drop_lem = λ v s h st. refl;
        live = λ v s bs a st e. cc;
        frame = λ v s bs bs' st same. st;
      },
      λ s. refl,
      λ s layout h. refl,
      λ v h h' s len e.
          let (s0, made, st) = new_unchecked_lem v h fits len in
          let same : ok s0 h ≡ ok s h' = sym made ∙ (rw fits at e) in cc,
    )

    pub raw-IsStorage : IsStorage (raw_storage P) T
    raw-IsStorage = raw_laws.0

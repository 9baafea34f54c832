-- ===== src/Storage/Box/Laws.antt =====
-- `Box` keeps the contract of a storage for every type.
use dyn_utils.Prelude.{
  ℕ, ◌≡◌, ◌≢◌, ◌∷◌, ◌∙◌, subst, inl, inr, refl, Option, none, some, List, [], arith, ◌==◌, length,
  Bool-cases, ==-false_of_ne,
}
use dyn_utils.Memory.{
  Bytes, read_cells, init_cells, read-init_cells, length-init_cells, RustType, align_of, layout_of,
  Block, Heap, ok, Allocator, box_new, find, find-head, without-head, find-replace, without-replace,
  block_at, nowhere, load, write_ref, Fits, write_ref-zst, write_ref-block, dealloc-ok,
  align_of_ne_zero, mod_self, Boxed, dangling, allocated, owned_by_box, release, load-Boxed,
}
use dyn_utils.Memory.Returns.{Returns, returns, weaken}
use dyn_utils.Storage.Trait.{IsStorage, IsFromBox, IsFresh, deref_as}
use dyn_utils.Storage.Box.{
  Box, from_box, new, ptr, ptr_mut, drop_in_place, box_storage, box_from_box,
}

abbrev pub owned : RustType → Box → Option ℕ
owned T s = owned_by_box T s.addr

none-ne-some : (a : ℕ) → ◌≢◌ {A = Option ℕ} none (some a)
none-ne-some a e = cc

module _ (al : Allocator) (T : RustType) where
  abbrev pub Stores : Bytes → Box → List Block → Type 0
  Stores v s bs = Fits T s.addr × Boxed T v s.addr bs

  load_lem :
      (v : Bytes) (s : Box) (h : Heap)
      → Stores v s h.blocks
      → load T nowhere (block_at s.addr) h ≡ some v
  load_lem v s h (f, boxed) = load-Boxed T v s.addr h f boxed

  nil_of_length : (v : Bytes) → length v ≡ 0 → v ≡ []
  nil_of_length [] e = refl
  nil_of_length (b ∷ v) e = absurd (omega arith)

  find-fresh :
      (a : ℕ) (c b : Block) (bs : List Block)
      → find b.addr bs ≡ none
      → find a bs ≡ some c
      → (find a (b ∷ bs) ≡ some c) × (◌≢◌ {A = Option ℕ} (some b.addr) (some a))
  find-fresh a c b bs fresh e =
      let apart : b.addr ≢ a = λ same. cc in
      (unfold find in rw (==-false_of_ne b.addr a apart) e, λ same. apart (ground arith))

  live_lem :
      (v : Bytes) (s : Box) (bs : List Block) (a : ℕ)
      → Stores v s bs
      → owned T s ≡ some a
      → (b : Block) × (find a bs ≡ some b)
  live_lem v s bs a (f, dangling zst e) o = absurd (none-ne-some a (rw zst at o))
  live_lem v s bs a (f, allocated sized b holds) o =
      let here : ◌≡◌ {A = Option ℕ} (some s.addr) (some a) =
        rw (==-false_of_ne T.size 0 sized) at o in
      (b, ground (arith, holds.found))

  frame_lem :
      (v : Bytes) (s : Box) (bs bs' : List Block)
      → Stores v s bs
      → ((a : ℕ) (b : Block) → owned T s ≡ some a → find a bs ≡ some b → find a bs' ≡ some b)
      → Stores v s bs'
  frame_lem v s bs bs' (f, dangling zst e) same = (f, dangling zst e)
  frame_lem v s bs bs' (f, allocated sized b holds) same = (
    f,
    allocated sized b (record {
      found = same s.addr b (rw (==-false_of_ne T.size 0 sized) refl) holds.found;
      layout = holds.layout;
      reads = holds.reads;
      room = holds.room;
    }),
  )

  -- A new box returns, holds its value, and giving back what it owns restores the heap.
  pub new_lem :
      (v : Bytes) (h : Heap)
      → length v ≡ T.size
      → Returns
          (λ s h'. Stores v s h'.blocks × (release (owned T s) h' ≡ h) × IsFresh (owned T s) h h')
          (new al T v h)
  unfolding new box_new from_box
  new_lem v h len = elim (Bool-cases (T.size == 0)) [
    | inl zst ↦
        let zero_size : T.size ≡ 0 = ground arith in
        let ne = align_of_ne_zero T in
        rw (zst, ==-false_of_ne (align_of T) 0 ne)
          (returns (
            (
              record { ne_null = ne; aligned = mod_self (align_of T) },
              dangling zero_size (nil_of_length v (omega arith)),
            ),
            refl,
            λ a b e. (e, λ k. cc),
          ))
    | inr sized ↦
        let a = al.address_for h.blocks (layout_of T) in
        let b : Block = record { addr = a; layout = layout_of T; cells = init_cells v } in
        let ne = al.nonnull h.blocks (layout_of T) in
        rw (sized, ==-false_of_ne a 0 ne)
          (returns (
            (
              record {
                ne_null = ne;
                aligned = al.aligned h.blocks (layout_of T) (align_of_ne_zero T);
              },
              allocated (ground arith) b (record {
                found = find-head b h.blocks;
                layout = refl;
                reads = subst (λ n. read_cells n (init_cells v) ≡ some v) len (read-init_cells v);
                room = length-init_cells v ∙ len;
              }),
            ),
            rw (without-head b h.blocks) refl,
            λ k c e. (find-fresh k c b h.blocks (al.fresh h.blocks (layout_of T)) e),
          ))
  ]

  write_lem :
      (v w : Bytes) (s : Box) (h : Heap)
      → Stores v s h.blocks
      → length w ≡ T.size
      → Returns
          (λ c h'. Stores w s h'.blocks × (release (owned T s) h' ≡ release (owned T s) h))
          (write_ref T nowhere (block_at s.addr) w h)
  write_lem v w s h (f, dangling zst e) len =
      rw (write_ref-zst T nowhere (block_at s.addr) w h f zst)
        (returns ((f, dangling zst (nil_of_length w (omega arith))), refl))
  write_lem v w s h (f, allocated sized b holds) len =
      let (c, wrote, reads, same) =
        write_ref-block T nowhere s.addr w h b f sized len holds.found
          (omega (arith, holds.room)) in
      rw wrote (
        returns (
          (
            f,
            allocated sized (record b { cells = c })
                (record {
                  found = find-replace s.addr c h.blocks b holds.found;
                  layout = holds.layout;
                  reads = reads;
                  room = same ∙ holds.room;
                }),
          ),
          rw (==-false_of_ne T.size 0 sized, without-replace s.addr c h.blocks) refl,
        ))

  drop_lem :
      (v : Bytes) (s : Box) (h : Heap)
      → Stores v s h.blocks
      → drop_in_place s (layout_of T) h ≡ ok tt (release (owned T s) h)
  unfolding drop_in_place
  drop_lem v s h (f, dangling zst e) = rw zst refl
  drop_lem v s h (f, allocated sized b holds) =
      rw (==-false_of_ne T.size 0 sized)
        (dealloc-ok s.addr (layout_of T) h b holds.found holds.layout)

  from_box_lem :
      (v : Bytes) (a : ℕ) (h : Heap)
      → Fits T a
      → Boxed T v a h.blocks
      → from_box T a h ≡ ok (record { addr = a }) h
  unfolding from_box
  from_box_lem v a h f boxed = rw (==-false_of_ne a 0 f.ne_null) refl

  -- For every type, `Box` is a storage that owns the block of its box, and takes over any box.
  pub box_laws : (law : IsStorage (box_storage al) T) × IsFromBox box_from_box law
  unfolding box_storage box_from_box ptr ptr_mut deref_as
  box_laws = (
    record {
      Stores = Stores;
      owned = owned T;
      new_lem = new_lem;
      access = λ v s h self st at.
          let got = load_lem v s h st in
          (block_at s.addr, refl, refl, ground (arith, got), ground (arith, got), got);
      write_lem = λ v w s h self p st at len e.
          let target : p ≡ block_at s.addr = ground (arith, load_lem v s h st) in
          rw target (weaken (write_lem v w s h st len) λ c h' q. (q.0, refl, q.1));
      drop_lem = drop_lem;
      live = live_lem;
      frame = frame_lem;
    },
    record {
      from_box_lem =
          λ v a h len f boxed. rw (from_box_lem v a h f boxed) (returns ((f, boxed), refl));
    },
  )

-- ===== src/Object/Call/Laws.antt =====
-- Calls through a storage are calls of the method on the stored value.
use dyn_utils.Prelude.{ℕ, ◌≡◌, refl, length}
use dyn_utils.Memory.{Bytes, RustType, Heap, ok, read_ref-ok, release}
use dyn_utils.Memory.Returns.{Returns, returns, bind}
use dyn_utils.Storage.{Storage, IsPlace, IsStorage}
use dyn_utils.Object.Call.{call_ref, call_mut}

module _ {S A : Type 0} {st : Storage S} {T : RustType} (law : IsStorage st T) where
  pub call_ref_lem :
      (method : Bytes → A) (v : Bytes) (s : S) (h : Heap) (self : ℕ)
      → law.Stores v s h.blocks
      → IsPlace st self
      → call_ref st T method self s h ≡ ok (method v) h
  unfolding call_ref
  call_ref_lem method v s h self stored at =
      let (p, e1, e2, e3, e4, got) = law.access v s h self stored at in
      rw (e3, read_ref-ok T (st.place self s) p h v got) refl

  -- the reply, the new value, and a heap that is the same but for the storage's own memory
  pub record Called (method : Bytes → Bytes × A) (v : Bytes) (s : S) (h : Heap) (r : S × A)
      (k : Heap) : Type 0 where
    pub reply : r.1 ≡ (method v).1
    pub stores : law.Stores (method v).0 r.0 k.blocks
    pub owned_same : law.owned r.0 ≡ law.owned s
    pub rest_same : release (law.owned s) k ≡ release (law.owned s) h

  pub call_mut_lem :
      (method : Bytes → Bytes × A) (v : Bytes) (s : S) (h : Heap) (self : ℕ)
      → law.Stores v s h.blocks
      → IsPlace st self
      → length (method v).0 ≡ T.size
      → Returns (Called method v s h) (call_mut st T st.as_mut method self s h)
  unfolding call_mut
  call_mut_lem method v s h self stored at len =
      let (p, e1, e2, e3, e4, got) = law.access v s h self stored at in
      rw (e4, read_ref-ok T (st.place self s) p h v got)
        (bind (law.write_lem v (method v).0 s h self p stored at len e4) λ c k (after, same, rest).
          returns (record { reply = refl; stores = after; owned_same = same; rest_same = rest }))

-- ===== src/Future/Completion.antt =====
-- An executor that drives an object of `dyn Future` to its output.
use dyn_utils.Prelude.{ℕ, ◌≡◌, refl, List, [], ◌∷◌, ◌++◌, ◌∙◌}
use dyn_utils.Memory.{Bytes, RustType, Heap}
use dyn_utils.Memory.Returns.{Returns, returns, bind, weaken}
use dyn_utils.Storage.{Storage, IsPlace, IsStorage}
use dyn_utils.Object.{DynObject}
use dyn_utils.Future.{ready, pending, IsFuture, FutureVtable, poll}
use dyn_utils.Future.Laws.{IsObject, Became, poll_lem, final}
use dyn_utils.MaybeSync.{drive}

-- The future, given these contexts, is pending at every poll.
module _ {T : RustType} {Cx Out : Type 0} (impl : IsFuture T Cx Out) where
  abbrev pub IsPending : Bytes → List Cx → Type 0
  IsPending v [] = Unit
  IsPending v (cx ∷ cxs) = ((impl.poll cx v).1 ≡ pending) × IsPending (impl.poll cx v).0 cxs

module _ {S Cx Out : Type 0} {st : Storage S} {T : RustType} (law : IsStorage st T)
    (impl : IsFuture T Cx Out) where
  trans-Became :
      {u w : Bytes} {o₁ o₂ o₃ : DynObject S (FutureVtable S Cx Out)} {h₁ h₂ h₃ : Heap}
      → Became law impl u o₁ h₁ o₂ h₂
      → Became law impl w o₂ h₂ o₃ h₃
      → Became law impl w o₁ h₁ o₃ h₃
  trans-Became first later = record {
    object = later.object;
    rest_same = later.rest_same ∙ first.rest_same;
  }

  -- After polls that leave the future pending the executor is given the output of the first poll
  -- that is ready, whatever contexts are left: it drives an object with no fault, and the object
  -- then holds what the future has become at that poll.
  pub drive-ready :
      (before after : List Cx) (cx : Cx) (res : Out) (v : Bytes)
      (obj : DynObject S (FutureVtable S Cx Out)) (h : Heap) (self : ℕ)
      → IsObject law impl v obj h
      → IsPlace st self
      → IsPending impl v before
      → (impl.poll cx (final impl v before)).1 ≡ ready res
      → Returns
          (λ r k.
            Became law impl (impl.poll cx (final impl v before)).0 obj h r.0 k × (r.1 ≡ ready res))
          (drive (poll self) obj (before ++ (cx ∷ after)) h)
  unfolding drive final
  drive-ready [] after cx res v obj h self is at wait e =
      bind (poll_lem law impl v obj h self cx is at)
        λ r k (became, reply). rw (reply, e) (returns (became, refl))
  drive-ready (c ∷ before) after cx res v obj h self is at wait e =
      bind (poll_lem law impl v obj h self c is at) λ r k (became, reply).
        rw (reply, wait.0)
          (weaken
            (drive-ready before after cx res (impl.poll c v).0 r.0 k self became.object at wait.1 e)
            λ r' k' (later, got). (trans-Became became later, got))

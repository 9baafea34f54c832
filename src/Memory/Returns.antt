-- ===== src/Memory/Returns.antt =====
-- Total correctness of a computation: it ends with no fault of any kind, and what it gives back and
-- the heap that it leaves satisfy a postcondition.
use dyn_utils.Memory.Allocation.{Heap, Outcome, ok, fault, Exec, and_then}

pub data Returns {A : Type 0} (Post : A → Heap → Type 0) : Outcome A → Type 0 where
  returns : {a : A} {h : Heap} → Post a h → Returns Post (ok a h)

-- The postcondition at the outcome of a run that has been computed.
abbrev pub AtOutcome : {A : Type 0} → (A → Heap → Type 0) → Outcome A → Type 0
AtOutcome Post (ok a h) = Post a h
AtOutcome Post (fault f) = ⊥

pub at_outcome :
    {A : Type 0} {Post : A → Heap → Type 0} {r : Outcome A} → Returns Post r → AtOutcome Post r
at_outcome (returns holds) = holds

module _ {A : Type 0} {Post : A → Heap → Type 0} where
  pub weaken :
      {Weaker : A → Heap → Type 0} {run : Outcome A}
      → Returns Post run
      → ((result : A) (after : Heap) → Post result after → Weaker result after)
      → Returns Weaker run
  weaken (returns {a} {h} holds) follows = returns (follows a h holds)

  -- The rest of a computation may use what its first part has established.
  pub bind :
      {B : Type 0} {Final : B → Heap → Type 0} {first : Outcome A} {rest : A → Exec B}
      → Returns Post first
      → ((result : A) (between : Heap) → Post result between → Returns Final (rest result between))
      → Returns Final (and_then first rest)
  bind (returns {a} {h} holds) continues = continues a h holds

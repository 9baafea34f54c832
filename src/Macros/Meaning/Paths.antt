-- ===== src/Macros/Meaning/Paths.antt =====
-- A method that `dyn_trait` writes for `maybe_sync`, run and driven to its output.
use dyn_utils.Prelude.{ℕ, ◌≡◌, refl, sym, subst, Bool, true, false, [], ◌∷◌, length}
use dyn_utils.Memory.{
  Bytes, RustType, Heap, Outcome, ok, fault, Exec, undefined_behaviour, and_then, pure, raise,
  ◌>>=◌,
}
use dyn_utils.Memory.Returns.{Returns}
use dyn_utils.Storage.{Storage, IsPlace, IsStorage}
use dyn_utils.Object
use dyn_utils.Object.{DynObject}
use dyn_utils.Future.{Poll, ready, IsFuture, FutureVtable, future_vtable}
use dyn_utils.Future
use dyn_utils.MaybeSync.{MaybeSync, poll, drive, maybe_sync_block}
use dyn_utils.MaybeSync.Paths.{first_answer, path_taken}
use dyn_utils.Macros.Sync.{Casing, is_sync_const}
use dyn_utils.Macros.DynTrait.Method.{DynMethod, maybe_sync_impl}
use dyn_utils.Macros.Meaning.{Env, Value, eval, maybe_sync}
use dyn_utils.Macros.Meaning.Laws.{AsyncCall, SyncCall, eval-maybe_sync_impl}

module _ {F Out : Type 0} where
  abbrev pub as_maybe_sync : Value F Out → Exec (MaybeSync F Out)
  as_maybe_sync (maybe_sync x) = pure x
  as_maybe_sync _ = raise undefined_behaviour

  and_then-maybe_sync :
      {B : Type 0} (r : Outcome (MaybeSync F Out)) (k : MaybeSync F Out → Exec B)
      → and_then
          (and_then (and_then r (λ x. pure {A = Value F Out} (maybe_sync x))) as_maybe_sync)
          k
        ≡ and_then r k
  and_then-maybe_sync (ok x h) k = refl
  and_then-maybe_sync (fault f) k = refl

module _ {S Cx Out : Type 0} {st : Storage S} {T : RustType} (law : IsStorage st T)
    (impl : IsFuture T Cx Out) (casing : Casing) (m : DynMethod) where
  -- The method that `dyn_trait` writes under `maybe_sync`, run and polled once: it answers as the
  -- implementation that its hidden constant names.
  pub generated_path :
      (env : Env (DynObject S (FutureVtable S Cx Out)) Out) (is_sync : Bool) (call_sync : Exec Out)
      (call_async : Exec Bytes) (out : Out) (v : Bytes) (cx : Cx) (h : Heap) (self : ℕ)
      → env.const (is_sync_const casing m.orig_sig) ≡ is_sync
      → env.new_object ≡ Object.new st (future_vtable st T impl) T
      → SyncCall casing env m call_sync
      → AsyncCall casing env m call_async
      → (is_sync ≡ true → call_sync ≡ pure out)
      → (is_sync ≡ false → call_async ≡ pure v)
      → length v ≡ T.size
      → IsPlace st self
      → Returns
          (λ answer k. answer ≡ first_answer impl is_sync out v cx)
          ((eval env (maybe_sync_impl casing m).block >>= as_maybe_sync >>= λ x.
              drive (poll (Future.poll self)) x (cx ∷ []) >>= λ r. pure r.1)
            h)
  generated_path env b call_sync call_async out v cx h self const made synced asynced syn asy len
        at =
      let k = λ (x : MaybeSync (DynObject S (FutureVtable S Cx Out)) Out).
        drive (poll (Future.poll self)) x (cx ∷ []) >>= λ r. pure r.1 in
      let Answers = λ (r : Outcome (Poll Out)).
        Returns (λ answer h'. answer ≡ first_answer impl b out v cx) r in
      subst (λ r. Answers (and_then (and_then r as_maybe_sync) k))
        (sym (eval-maybe_sync_impl casing env m call_sync call_async synced asynced h))
        (subst Answers
          (sym (
            and_then-maybe_sync
              (maybe_sync_block (env.const (is_sync_const casing m.orig_sig)) call_sync
                (call_async >>= λ v. env.new_object v) h)
              k))
          (subst
            (λ c.
              Answers (
                and_then (maybe_sync_block c call_sync (call_async >>= λ v. env.new_object v) h) k))
            (sym const)
            (subst
              (λ new_object.
                Answers
                  (and_then (maybe_sync_block b call_sync (call_async >>= λ v. new_object v) h) k))
              (sym made)
              (path_taken law impl b call_sync call_async out v cx h self syn asy len at))))

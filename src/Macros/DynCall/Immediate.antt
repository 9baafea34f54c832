-- ===== src/Macros/DynCall/Immediate.antt =====
-- A `maybe_sync` method, called on an object and polled once.
use dyn_utils.Prelude.{
  ℕ, Bool, true, false, if◌then◌else◌, some, ◌≡◌, refl, sym, ap, subst, ◌∙◌, [], ◌∷◌, length,
}
use dyn_utils.Memory.{
  Bytes, RustType, Heap, Outcome, ok, fault, Exec, undefined_behaviour, and_then, pure, raise,
  ◌>>=◌,
}
use dyn_utils.Memory.Returns.{Returns, returns, bind}
use dyn_utils.Storage.{Storage, IsPlace, IsStorage}
use dyn_utils.Object
use dyn_utils.Object.{DynObject}
use dyn_utils.Future.{IsFuture, FutureVtable, future_vtable, Poll, ready}
use dyn_utils.Future
use dyn_utils.MaybeSync.{MaybeSync, poll, drive}
use dyn_utils.MaybeSync.Paths.{first_answer}
use dyn_utils.Macros.Parts.{unwrap_or}
use dyn_utils.Macros.Syntax.{ItemTrait, SynPath, TraitItemFn, success}
use dyn_utils.Macros.Utils.{fn_args}
use dyn_utils.Macros.Sync.{Casing, is_sync_const, sync_fn}
use dyn_utils.Macros.DynTrait.{DynTraitOpts, DynTraitOutput, dyn_trait_impl, type_params}
use dyn_utils.Macros.DynTrait.Attrs.Laws.{any_maybe_sync, dyn_metas, other_attributes}
use dyn_utils.Macros.DynTrait.Hidden.{orig_sig-new_method}
use dyn_utils.Macros.DynTrait.Written.{impl_fn, method_for, selected_fns}
use dyn_utils.Macros.DynObject.{DynObjectOps, DynObjectOutput, dyn_object_impl}
use dyn_utils.Macros.DynObject.Vtable.{by_ref, new_receiver}
use dyn_utils.Macros.Dispatch.Laws.{find_fn}
use dyn_utils.Macros.DynCall.{call_dyn}
use dyn_utils.Macros.DynCall.Laws.{call_dyn-body}
use dyn_utils.Macros.Meaning.{Env, Value, boolean, concrete, eval, maybe_sync, object, output}
use dyn_utils.Macros.Meaning.Paths.{as_maybe_sync, generated_path}

module _ {S F Out B : Type 0} where
  -- A caller whose method returns a `MaybeSync` is given one, which it uses; any other value would
  -- not type.
  abbrev pub use_maybe_sync : (MaybeSync F Out → Exec B) → S × Value F Out → Exec (S × B)
  use_maybe_sync run (s, maybe_sync x) = do b ← run x; pure (s, b)
  use_maybe_sync run (s, _) = raise undefined_behaviour

given :
    (S F Out B : Type 0) (s : S) (r : Outcome (Value F Out)) (run : MaybeSync F Out → Exec B)
    → and_then {A = S × Value F Out} (and_then r (λ value. pure (s, value))) (use_maybe_sync run)
      ≡ and_then {B = S × B} (and_then (and_then r as_maybe_sync) run) (λ b. pure (s, b))
given S F Out B s (ok (maybe_sync x) h) run = refl
given S F Out B s (ok (boolean b) h) run = refl
given S F Out B s (ok (output o) h) run = refl
given S F Out B s (ok (concrete v) h) run = refl
given S F Out B s (ok (object x) h) run = refl
given S F Out B s (fault f) run = refl

module _ {S Cx Out : Type 0} where
  -- An executor that polls a `MaybeSync` once.
  abbrev pub poll_once :
      ℕ → Cx → MaybeSync (DynObject S (FutureVtable S Cx Out)) Out → Exec (Poll Out)
  poll_once self cx x = do r ← drive (poll (Future.poll self)) x (cx ∷ []); pure r.1

module _ {S S' Cx Out : Type 0} {st : Storage S} {st' : Storage S'} {T F : RustType}
    (law : IsStorage st T) (law' : IsStorage st' F) (impl : IsFuture F Cx Out) (casing : Casing)
    (crate_name crate_name1 : SynPath) (trait : ItemTrait) (opts : DynTraitOpts)
    (opts1 : DynObjectOps) (written : DynTraitOutput) (dyn : DynObjectOutput)
    (writes : dyn_trait_impl casing crate_name trait opts ≡ success written)
    (implements : dyn_object_impl crate_name1 written.dyn_trait opts1 ≡ success dyn) where
  -- Let a trait go through `dyn_trait`, and the trait that it writes through `dyn_object`, and let
  -- `is_sync` be what the hidden constant of the stored type's implementation says of a `maybe_sync`
  -- method on `&self`. If it is set, let the hidden synchronous method return an output; the other
  -- method may then do anything, fail too. If it is not set, let the method itself return a future;
  -- the hidden method may then do anything, fail too, as the body that is written for it does. A call
  -- of the method on the object, whose `MaybeSync` is polled once, then ends with no fault. It
  -- answers `ready` with the synchronous output if the constant is set, else what the future answers
  -- at its first poll. The storage of the object is as it was.
  pub call_dyn-maybe_sync :
      (env : Bytes → Env (DynObject S' (FutureVtable S' Cx Out)) Out) (m : TraitItemFn)
      (is_sync : Bool) (call_sync : Exec Out) (call_async : Exec Bytes) (v fut : Bytes) (out : Out)
      (s : S) (h : Heap) (self self' : ℕ) (cx : Cx)
      → find_fn m.sig.ident (selected_fns trait.items) ≡ some m
      → any_maybe_sync (dyn_metas m.attrs) ≡ true
      → new_receiver m ≡ some by_ref
      → (env v).const (is_sync_const casing m.sig) ≡ is_sync
      → (env v).method (sync_fn m.sig) (fn_args m.sig) ≡ (call_sync >>= λ res. pure (output res))
      → (env v).method m.sig.ident (fn_args m.sig) ≡ (call_async >>= λ f. pure (concrete f))
      → (is_sync ≡ true → call_sync ≡ pure out)
      → (is_sync ≡ false → call_async ≡ pure fut)
      → (env v).new_object ≡ Object.new st' (future_vtable st' F impl) F
      → length fut ≡ F.size
      → law.Stores v s h.blocks
      → IsPlace st self
      → IsPlace st' self'
      → Returns
          (λ r k. r ≡ (s, if is_sync then ready out else (impl.poll cx fut).1))
          ((call_dyn st T written dyn env m.sig.ident self s
              >>= use_maybe_sync (poll_once self' cx))
            h)
  call_dyn-maybe_sync env m b call_sync call_async v fut out s h self self' cx found is_sync recv
        const synced calls syn asy makes len stored at at' =
      let crate_ = unwrap_or opts.crate_ crate_name in
      let gs = type_params trait.generics in
      let dyn_method = method_for casing crate_ gs m in
      let orig : dyn_method.orig_sig ≡ m.sig =
        orig_sig-new_method casing crate_ gs record m { attrs = other_attributes m.attrs } in
      let body =
        call_dyn-body law casing crate_name crate_name1 trait opts opts1 written dyn writes
          implements env m.sig.ident m v s h self found recv stored at in
      let answers =
        generated_path law' impl casing dyn_method (env v) b call_sync call_async out fut cx h self'
          (ap (λ sig. (env v).const (is_sync_const casing sig)) orig ∙ const) makes
          (ap (λ sig. (env v).method (sync_fn sig) (fn_args sig)) orig ∙ synced)
          (ap (λ sig. (env v).method sig.ident (fn_args sig)) orig ∙ calls) syn asy len at' in
      let same =
        ap (λ r. and_then r (use_maybe_sync (poll_once self' cx))) body
        ∙ given S _ Out (Poll Out) s _ (poll_once self' cx)
        ∙ ap
            (λ b.
              and_then {B = S × Poll Out}
                (and_then
                  (and_then (eval (env v) (impl_fn casing b dyn_method).block h) as_maybe_sync)
                  (poll_once self' cx))
                (λ b. pure (s, b)))
            is_sync in
      subst (Returns (λ r k. r ≡ (s, first_answer impl b out fut cx))) (sym same)
        (bind answers λ answer k e. returns (λ i. (s, e i)))

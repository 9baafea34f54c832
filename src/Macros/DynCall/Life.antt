-- ===== src/Macros/DynCall/Life.antt =====
-- A method that returns an `impl Future`, called on an object and run to its end.
use dyn_utils.Prelude.{ℕ, true, false, some, if◌then◌else◌, ◌≡◌, refl, ap, ◌∙◌, List, length, map}
use dyn_utils.Memory.{
  Bytes, RustType, Heap, Outcome, ok, fault, Exec, undefined_behaviour, and_then, pure, raise,
  ◌>>=◌,
}
use dyn_utils.Storage.{Storage, IsPlace, IsStorage}
use dyn_utils.Object
use dyn_utils.Object.{DynObject, drop}
use dyn_utils.Object.Laws.{destroyed}
use dyn_utils.Future.{IsFuture, FutureVtable, dyn_future, future_vtable, poll_all, Poll}
use dyn_utils.Future.Laws.{answers, final, drive_lem}
use dyn_utils.Macros.Parts.{unwrap_or}
use dyn_utils.Macros.Syntax.{Ident, ItemTrait, SynPath, TraitItemFn, success}
use dyn_utils.Macros.Utils.{fn_args, is_some, return_type}
use dyn_utils.Macros.Sync.{Casing}
use dyn_utils.Macros.DynTrait.{DynTraitOpts, DynTraitOutput, dyn_trait_impl, type_params}
use dyn_utils.Macros.DynTrait.Attrs.{has_rpit}
use dyn_utils.Macros.DynTrait.Attrs.Laws.{any_maybe_sync, dyn_metas, other_attributes}
use dyn_utils.Macros.DynTrait.Names.{rpit-finish_method}
use dyn_utils.Macros.DynTrait.Hidden.{orig_sig-new_method}
use dyn_utils.Macros.DynTrait.Method.{argument_as_arg, new_method}
use dyn_utils.Macros.DynTrait.Parameters.{has_rpit-desugar_async}
use dyn_utils.Macros.DynTrait.Written.{impl_fn, method_for, selected_fns, written_impl}
use dyn_utils.Macros.DynObject.{DynObjectOps, DynObjectOutput, dyn_object_impl}
use dyn_utils.Macros.DynObject.Vtable.{by_ref, new_receiver}
use dyn_utils.Macros.Dispatch.Laws.{find_fn}
use dyn_utils.Macros.DynCall.{call_dyn}
use dyn_utils.Macros.DynCall.Laws.{call_dyn-body}
use dyn_utils.Macros.Meaning.{Env, Value, concrete, eval, object, to_object}
use dyn_utils.Macros.Meaning.Laws.{eval-forward_method}

module _ {S F Out B : Type 0} where
  -- A caller whose method returns a `DynObject` is given one, which it uses; any other value
  -- would not type.
  abbrev pub use_object : (F → Exec B) → S × Value F Out → Exec (S × B)
  use_object run (s, object x) = do b ← run x; pure (s, b)
  use_object run (s, _) = raise undefined_behaviour

rpit-method_for :
    (casing : Casing) (crate_ : SynPath) (gs : List Ident) (m : TraitItemFn)
    → is_some (method_for casing crate_ gs m).rpit ≡ has_rpit m.sig
unfolding new_method has_rpit return_type
rpit-method_for casing crate_ gs m =
    ap is_some (rpit-finish_method _ _ _ _ _ _)
    ∙ has_rpit-desugar_async record m.sig { inputs = map argument_as_arg m.sig.inputs }

made :
    (S F Out B : Type 0) (s : S) (r : Outcome F) (run : F → Exec B)
    → and_then
        (and_then {A = Value F Out} {B = S × Value F Out}
          (and_then r (λ x. pure (object x)))
          (λ value. pure (s, value)))
        (use_object run)
      ≡ and_then {B = S × B} (and_then r run) (λ b. pure (s, b))
made S F Out B s (ok x h) run = refl
made S F Out B s (fault f) run = refl

-- The body that is written for a method without `maybe_sync` that returns an `impl Trait`.
eval-written_impl :
    {F Out : Type 0} (casing : Casing) (crate_ : SynPath) (gs : List Ident) (m : TraitItemFn)
    (env : Env F Out) (v : Bytes)
    → any_maybe_sync (dyn_metas m.attrs) ≡ false
    → has_rpit m.sig ≡ true
    → env.method m.sig.ident (fn_args m.sig) ≡ pure (concrete v)
    → eval env (written_impl casing crate_ gs m).block ≡ (env.new_object v >>= λ x. pure (object x))
eval-written_impl casing crate_ gs m env v not_sync rpit calls =
    let dyn_method = method_for casing crate_ gs m in
    let orig : dyn_method.orig_sig ≡ m.sig =
      orig_sig-new_method casing crate_ gs record m { attrs = other_attributes m.attrs } in
    ap (λ b. eval env (impl_fn casing b dyn_method).block) not_sync
    ∙ eval-forward_method casing env dyn_method
    ∙ (λ i.
        if (rpit-method_for casing crate_ gs m ∙ rpit) i
        then env.method (orig i).ident (fn_args (orig i)) >>= to_object env.new_object
        else env.method (orig i).ident (fn_args (orig i)))
    ∙ ap (λ call. call >>= to_object env.new_object) calls

module _ {S Cx Out : Type 0} where
  -- An executor that polls an object once for each context, and drops it.
  abbrev pub poll_and_drop :
      Storage S → ℕ → List Cx → DynObject S (FutureVtable S Cx Out) → Exec (List (Poll Out))
  poll_and_drop st self cxs obj = do
    (obj, answers) ← poll_all self obj cxs
    _ ← drop st dyn_future self obj
    pure answers

module _ {S S' Cx Out : Type 0} {st : Storage S} {st' : Storage S'} {T F : RustType}
    (law : IsStorage st T) (law' : IsStorage st' F) (impl : IsFuture F Cx Out) (casing : Casing)
    (crate_name crate_name1 : SynPath) (trait : ItemTrait) (opts : DynTraitOpts)
    (opts1 : DynObjectOps) (written : DynTraitOutput) (dyn : DynObjectOutput)
    (writes : dyn_trait_impl casing crate_name trait opts ≡ success written)
    (implements : dyn_object_impl crate_name1 written.dyn_trait opts1 ≡ success dyn) where
  -- Let a trait go through `dyn_trait`, and the trait that it writes through `dyn_object`. Let a
  -- method on `&self` that returns an `impl Future`, and is not `maybe_sync`, give a future for the
  -- value that an object stores. A call of the method on the object then ends with no fault and
  -- gives an object of this future. An executor that polls that object gets the answers of the
  -- future; once it is dropped, the destructor of the future, if its type has one, has run once, on
  -- what the future has become, and everything else is as before the call, the first object included.
  pub call_dyn-life :
      (env : Bytes → Env (DynObject S' (FutureVtable S' Cx Out)) Out) (m : TraitItemFn)
      (v fut : Bytes) (s : S) (h : Heap) (self self' : ℕ) (cxs : List Cx)
      → find_fn m.sig.ident (selected_fns trait.items) ≡ some m
      → any_maybe_sync (dyn_metas m.attrs) ≡ false
      → has_rpit m.sig ≡ true
      → new_receiver m ≡ some by_ref
      → (env v).method m.sig.ident (fn_args m.sig) ≡ pure (concrete fut)
      → (env v).new_object ≡ Object.new st' (future_vtable st' F impl) F
      → length fut ≡ F.size
      → law.Stores v s h.blocks
      → IsPlace st self
      → IsPlace st' self'
      → ((call_dyn st T written dyn env m.sig.ident self s
              >>= use_object (poll_and_drop st' self' cxs))
            h
          ≡ ok (s, answers impl fut cxs) (destroyed F (final impl fut cxs) h))
        × law.Stores v s (destroyed F (final impl fut cxs) h).blocks
  call_dyn-life env m v fut s h self self' cxs found not_sync rpit recv calls makes len stored at
        at' =
      let body =
        call_dyn-body law casing crate_name crate_name1 trait opts opts1 written dyn writes
          implements env m.sig.ident m v s h self found recv stored at in
      let run =
        eval-written_impl casing (unwrap_or opts.crate_ crate_name) (type_params trait.generics) m
          (env v) fut not_sync rpit calls in
      let life = drive_lem law' impl cxs fut h self' len at' in
      let live = poll_and_drop st' self' cxs in
      let keep = λ (r : Outcome (List (Poll Out))).
        and_then {B = S × List (Poll Out)} r (λ b. pure (s, b)) in
      let value_of = λ (r : Outcome (Value (DynObject S' (FutureVtable S' Cx Out)) Out)).
        and_then {B = S × Value (DynObject S' (FutureVtable S' Cx Out)) Out} r
          (λ value. pure (s, value)) in
      (
        ap (λ r. and_then r (use_object live)) body
            ∙ (λ i. and_then (value_of (run i h)) (use_object live))
            ∙ made S _ Out (List (Poll Out)) s ((env v).new_object fut h) live
            ∙ (λ i. keep (and_then (makes i fut h) live))
            ∙ ap keep life,
        stored,
      )

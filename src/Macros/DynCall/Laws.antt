-- ===== src/Macros/DynCall/Laws.antt =====
-- A call of a method of the dyn trait on an object runs the body that is written for the method.
use text.Mathlib.Text.{◌==◌ as str_eq}
use mathlib.Core.Option.{map as option_map}
use dyn_utils.Prelude.{
  ℕ, Bool, true, false, Option, none, some, if◌then◌else◌, ◌≡◌, refl, sym, ap, ◌∙◌, List, [], ◌∷◌,
  map,
}
use dyn_utils.Memory.{Bytes, RustType, Heap, Outcome, ok, Exec, and_then, pure, ◌>>=◌}
use dyn_utils.Storage.{Storage, IsPlace, IsStorage}
use dyn_utils.Object.Call.Laws.{call_ref_lem}
use dyn_utils.Macros.Parts.{unwrap_or}
use dyn_utils.Macros.Syntax.{
  Ident, ImplItemFn, ItemTrait, Receiver, SynPath, TraitItemFn, success, Bounds, Lifetime,
  Signature,
}
use dyn_utils.Macros.Utils.{fn_args, impl_method, skip_one}
use dyn_utils.Macros.Sync.{Casing}
use dyn_utils.Macros.DynTrait.{DynTraitOpts, DynTraitOutput, dyn_trait_impl, type_params}
use dyn_utils.Macros.DynTrait.Selection.{ident-new_method}
use dyn_utils.Macros.Visit.{visit_type}
use dyn_utils.Macros.DynTrait.Captured.{
  CapturedLifetimes, captured_visitor, receiver_lifetime, visit_receiver,
}
use dyn_utils.Macros.DynTrait.Method.{
  argument_as_arg, desugar_async, finish_method, new_method, update_dyn_signature, DynMethod,
  forward_method, maybe_sync_impl, maybe_sync_method, maybe_sync_signature,
}
use dyn_utils.Macros.DynTrait.Attrs.Laws.{any_maybe_sync, dyn_metas, other_attributes}
use dyn_utils.Macros.DynTrait.Written.{
  dyn_fn, dyn_trait_impl-methods, impl_fn, impl_fns, method_for, selected_fns, written_dyn,
  written_impl,
}
use dyn_utils.Macros.DynObject.{DynObjectOps, DynObjectOutput, dyn_object_impl}
use dyn_utils.Macros.DynObject.Laws.{fn_items}
use dyn_utils.Macros.DynObject.Vtable.{
  accessor_of, by_ref, new_receiver, receiver_for, storage_accessor_of, vtable_receiver,
}
use dyn_utils.Macros.Dispatch.{reach}
use dyn_utils.Macros.Dispatch.Laws.{dispatch-reach, find_fn, option_map-if}
use dyn_utils.Macros.DynCall.{call_dyn, find_impl, run_impl, written_methods}
use dyn_utils.Macros.Meaning.{Env, Value, eval}

-- The methods that are written have the names of those that they are written for.
sig-impl_fn :
    (casing : Casing) (b : Bool) (m : DynMethod)
    → ((impl_fn casing b m).sig.ident ≡ m.dyn_method.sig.ident)
      × ((dyn_fn b m).sig.ident ≡ m.dyn_method.sig.ident)
      × ((dyn_fn b m).sig.receiver ≡ m.dyn_method.sig.receiver)
unfolding maybe_sync_impl maybe_sync_method maybe_sync_signature forward_method impl_method
sig-impl_fn casing true m = (refl, refl, refl)
sig-impl_fn casing false m = (refl, refl, refl)

ident-written :
    (casing : Casing) (crate_ : SynPath) (gs : List Ident) (m : TraitItemFn)
    → ((written_impl casing crate_ gs m).sig.ident ≡ m.sig.ident)
      × ((written_dyn casing crate_ gs m).sig.ident ≡ m.sig.ident)
ident-written casing crate_ gs m =
    let (a, b, _) =
      sig-impl_fn casing (any_maybe_sync (dyn_metas m.attrs)) (method_for casing crate_ gs m) in
    let same = ident-new_method casing crate_ gs record m { attrs = other_attributes m.attrs } in
    (a ∙ same, b ∙ same)

find_fn-map :
    (f : TraitItemFn → TraitItemFn) (name : Ident) (ms : List TraitItemFn)
    → ((m : TraitItemFn) → (f m).sig.ident ≡ m.sig.ident)
    → find_fn name (map f ms) ≡ option_map f (find_fn name ms)
find_fn-map f name [] h = refl
find_fn-map f name (m ∷ ms) h =
    ap (λ i. if str_eq i name then some (f m) else find_fn name (map f ms)) (h m)
    ∙ option_map-if f (str_eq m.sig.ident name) m _ _ (find_fn-map f name ms h)

find_impl-map :
    (f : TraitItemFn → ImplItemFn) (name : Ident) (ms : List TraitItemFn)
    → ((m : TraitItemFn) → (f m).sig.ident ≡ m.sig.ident)
    → find_impl name (map f ms) ≡ option_map f (find_fn name ms)
unfolding find_impl
find_impl-map f name [] h = refl
find_impl-map f name (m ∷ ms) h =
    ap (λ i. if str_eq i name then some (f m) else find_impl name (map f ms)) (h m)
    ∙ option_map-if f (str_eq m.sig.ident name) m _ _ (find_impl-map f name ms h)

-- `dyn_object` takes the receiver of a method that is written as it takes that of the method.
vtable_receiver-visit_receiver :
    (captured : CapturedLifetimes) (recv : Receiver)
    → vtable_receiver (visit_receiver captured recv) ≡ vtable_receiver recv
unfolding visit_receiver
vtable_receiver-visit_receiver captured recv = by_reference recv.reference
  where
    by_reference :
        (reference : Option (Option Lifetime))
        → vtable_receiver record recv {
          reference = receiver_lifetime captured reference;
          ty = visit_type (captured_visitor captured) recv.ty;
        }
          ≡ vtable_receiver record recv { reference = reference }
    by_reference none = refl
    by_reference (some none) = refl
    by_reference (some (some lt)) = refl

receiver_for-visit_receiver :
    (captured : CapturedLifetimes) (o : Option Receiver)
    → receiver_for (option_map (visit_receiver captured) o) ≡ receiver_for o
receiver_for-visit_receiver captured none = refl
receiver_for-visit_receiver captured (some recv) =
    ap some (vtable_receiver-visit_receiver captured recv)

receiver-if :
    (b : Bool) (x y : Signature)
    → x.receiver ≡ y.receiver
    → (if b then x else y).receiver ≡ y.receiver
receiver-if true x y h = h
receiver-if false x y h = refl

receiver-finish_method :
    (crate_ : SynPath) (gs : List Ident) (sig : Signature) (method : TraitItemFn)
    (rpit : Option Bounds) (storage : Ident)
    → receiver_for (finish_method crate_ gs sig method rpit storage).dyn_method.sig.receiver
      ≡ receiver_for method.sig.receiver
unfolding update_dyn_signature
receiver-finish_method crate_ gs sig method none storage = refl
receiver-finish_method crate_ gs sig method (some bs) storage =
    receiver_for-visit_receiver _ method.sig.receiver

new_receiver-written_dyn :
    (casing : Casing) (crate_ : SynPath) (gs : List Ident) (m : TraitItemFn)
    → new_receiver (written_dyn casing crate_ gs m) ≡ new_receiver m
unfolding new_receiver new_method desugar_async
new_receiver-written_dyn casing crate_ gs m =
    ap receiver_for
      (sig-impl_fn casing (any_maybe_sync (dyn_metas m.attrs)) (method_for casing crate_ gs m)).2
    ∙ receiver-finish_method _ _ _ _ _ _
    ∙ ap receiver_for (
        receiver-if m.sig.is_async _ record m.sig { inputs = map argument_as_arg m.sig.inputs }
          refl)

module _ {S A : Type 0} {st : Storage S} {T : RustType} (law : IsStorage st T) where
  -- A method on `&self` is reached with no change of the storage or the heap.
  reach-by_ref :
      (method : Bytes → Bytes × A) (v : Bytes) (s : S) (h : Heap) (self : ℕ)
      → law.Stores v s h.blocks
      → IsPlace st self
      → reach st T (storage_accessor_of (some by_ref)) (accessor_of (some by_ref)) method self s h
        ≡ ok (s, (method v).1) h
  unfolding reach
  reach-by_ref method v s h self stored at =
      ap (λ r. and_then r (λ reply. pure (s, reply)))
        (call_ref_lem law (λ v. (method v).1) v s h self stored at)

module _ {S F Out : Type 0} {st : Storage S} {T : RustType} (law : IsStorage st T) (casing : Casing)
    (crate_name crate_name1 : SynPath) (trait : ItemTrait) (opts : DynTraitOpts)
    (opts1 : DynObjectOps) (written : DynTraitOutput) (object : DynObjectOutput)
    (writes : dyn_trait_impl casing crate_name trait opts ≡ success written)
    (implements : dyn_object_impl crate_name1 written.dyn_trait opts1 ≡ success object) where
  -- Let a trait go through `dyn_trait`, and the trait that it writes through `dyn_object`. A call of
  -- a method on `&self` on an object then runs the body that `dyn_trait` has written for the method,
  -- at the value that the object stores, and leaves the storage as it is.
  pub call_dyn-body :
      (env : Bytes → Env F Out) (name : Ident) (m : TraitItemFn) (v : Bytes) (s : S) (h : Heap)
      (self : ℕ)
      → find_fn name (selected_fns trait.items) ≡ some m
      → new_receiver m ≡ some by_ref
      → law.Stores v s h.blocks
      → IsPlace st self
      → call_dyn st T written object env name self s h
        ≡ (eval
                (env v)
                (written_impl casing
                  (unwrap_or opts.crate_ crate_name)
                  (type_params trait.generics)
                  m).block
              >>= λ value. pure (s, value))
            h
  unfolding call_dyn run_impl
  call_dyn-body env name m v s h self found recv stored at =
      let crate_ = unwrap_or opts.crate_ crate_name in
      let gs = type_params trait.generics in
      let dyn_of = written_dyn casing crate_ gs in
      let impl_of = written_impl casing crate_ gs in
      let (fns, impls) = dyn_trait_impl-methods casing crate_name trait opts written writes in
      let found_dyn : find_fn name (fn_items written.dyn_trait.items) ≡ some (dyn_of m) =
        ap (find_fn name) fns
        ∙ find_fn-map dyn_of name (selected_fns trait.items)
            (λ m. (ident-written casing crate_ gs m).1)
        ∙ ap (option_map dyn_of) found in
      let found_impl : find_impl name (impl_fns written.impl_items) ≡ some (impl_of m) =
        ap (find_impl name) impls
        ∙ find_impl-map impl_of name (selected_fns trait.items)
            (λ m. (ident-written casing crate_ gs m).0)
        ∙ ap (option_map impl_of) found in
      let (r, received, called) =
        dispatch-reach st T crate_name1 written.dyn_trait opts1 object (written_methods written env)
          name (dyn_of m) s h self implements found_dyn in
      let by : some r ≡ some by_ref =
        sym received ∙ new_receiver-written_dyn casing crate_ gs m ∙ recv in
      let rest = λ (o : Outcome (S × Exec (Value F Out))).
        and_then o (λ p. p.1 >>= λ value. pure (p.0, value)) in
      ap rest called
      ∙ ap
          (λ o. rest (
            reach st T (storage_accessor_of o) (accessor_of o)
              (written_methods written env name (skip_one (fn_args (dyn_of m).sig))) self s h))
          by
      ∙ ap rest (
          reach-by_ref law (written_methods written env name (skip_one (fn_args (dyn_of m).sig))) v
            s h self stored at)
      ∙ ap (λ o. (run_impl (env v) o >>= λ value. pure (s, value)) h) found_impl

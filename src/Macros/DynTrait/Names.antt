-- ===== src/Macros/DynTrait/Names.antt =====
-- macros/src/sync.rs and the hidden items of macros/src/dyn_trait.rs: what `sync` writes in an
-- implementation against what `dyn_trait` declares in the trait.
use dyn_utils.Prelude.{
  true, false, Option, none, some, ◌≡◌, refl, ap, ◌∙◌, sym, subst, if◌then◌else◌, List, map,
}
use dyn_utils.Macros.Syntax.{
  Bounds, Ident, ImplItemFn, SynPath, RustSyntax, Signature, TraitItemConst, TraitItemFn, failure,
  success, sync_not_async,
}
use dyn_utils.Macros.Utils.{future_output, last_segment, return_type}
use dyn_utils.Macros.Sync.{Casing, SyncItems, sync_impl, sync_items}
use dyn_utils.Macros.DynTrait.Attrs.{impl_bounds}
use dyn_utils.Macros.DynTrait.Method.{
  argument_as_arg, desugar_async, finish_method, future_of, hidden_const, hidden_method, new_method,
  output_or_unit, rpit_output, sync_method,
}

pub orig_sig-finish_method :
    (crate_ : SynPath) (gs : List Ident) (sig : Signature) (method : TraitItemFn)
    (rpit : Option Bounds) (storage : Ident)
    → (finish_method crate_ gs sig method rpit storage).orig_sig ≡ sig
orig_sig-finish_method crate_ gs sig method none storage = refl
orig_sig-finish_method crate_ gs sig method (some bs) storage = refl

pub rpit-finish_method :
    (crate_ : SynPath) (gs : List Ident) (sig : Signature) (method : TraitItemFn)
    (rpit : Option Bounds) (storage : Ident)
    → (finish_method crate_ gs sig method rpit storage).rpit ≡ rpit
rpit-finish_method crate_ gs sig method none storage = refl
rpit-finish_method crate_ gs sig method (some bs) storage = refl

-- An async signature returns a future of its output.
output-desugar_async :
    (sig : Signature)
    → sig.is_async ≡ true
    → (desugar_async sig).output ≡ some (future_of (output_or_unit sig.output))
unfolding desugar_async return_type
output-desugar_async sig h =
    subst
      (λ b.
        (if b
          then record sig {
            is_async = false;
            output = some (future_of (output_or_unit sig.output));
          }
          else sig).output
        ≡ some (future_of (output_or_unit sig.output)))
      (sym h) refl

rpit_output-async :
    (o : Option RustSyntax) (ty : RustSyntax)
    → o ≡ some (future_of ty)
    → rpit_output (impl_bounds o) ≡ some ty
unfolding impl_bounds future_output last_segment
rpit_output-async o ty h = subst (λ x. rpit_output (impl_bounds x) ≡ some ty) (sym h) refl

desugar_async-plain : (sig : Signature) → sig.is_async ≡ false → desugar_async sig ≡ sig
unfolding desugar_async
desugar_async-plain sig h = rw h refl

module _ (casing : Casing) (crate_ : SynPath) (trait_generics : List Ident) where
  -- The hidden method, from the method's own signature.
  pub sync_method-new_method :
      (method : TraitItemFn)
      → method.sig.is_async ≡ true
      → sync_method (new_method casing crate_ trait_generics method)
        ≡ hidden_method method.sig (some (output_or_unit method.sig.output))
  unfolding new_method sync_method return_type
  sync_method-new_method method h =
      let sig = record method.sig { inputs = map argument_as_arg method.sig.inputs } in
      rw
        (
          orig_sig-finish_method _ _ _ _ _ _,
          rpit-finish_method _ _ _ _ _ _,
          rpit_output-async _ _ (output-desugar_async sig h),
        )
        refl

  pub rpit-new_method :
      (method : TraitItemFn)
      → method.sig.is_async ≡ false
      → (new_method casing crate_ trait_generics method).rpit ≡ impl_bounds (return_type method.sig)
  unfolding new_method return_type
  rpit-new_method method h =
      rpit-finish_method _ _ _ _ _ _
      ∙ ap (λ sig. impl_bounds (return_type sig))
          (desugar_async-plain record method.sig { inputs = map argument_as_arg method.sig.inputs }
            h)

-- The signature with the output written out.
abbrev pub explicit_output : Signature → Signature
explicit_output sig = record sig { output = some (output_or_unit sig.output) }

-- What `sync` writes for an async method overrides what `dyn_trait` hides in the trait.
pub Overrides : Casing → SyncItems → TraitItemFn → TraitItemConst → Type 0
Overrides casing out hidden const =
    (explicit_output out.sync_method.sig ≡ hidden.sig)
    × (out.is_sync.ident ≡ const.ident)
    × (out.is_sync.value ≡ true)
    × (const.value ≡ false)

-- For an async method of the trait and its implementation with the same signature, `maybe_sync` and
-- `sync` both succeed. The method that `sync` adds has the signature of the hidden method, its
-- output written out, and the constant that `sync` adds has the hidden constant's name; it is true
-- where the hidden one is false.
pub sync_impl-Overrides :
    (casing : Casing) (crate_ : SynPath) (trait_generics : List Ident) (method : TraitItemFn)
    (overrider : ImplItemFn)
    → method.sig.is_async ≡ true
    → overrider.sig ≡ method.sig
    → (out : SyncItems) × (hidden : TraitItemFn) × (sync_impl casing overrider ≡ success out)
      × (sync_method (new_method casing crate_ trait_generics method) ≡ success hidden)
      × Overrides casing out hidden
          (hidden_const casing (new_method casing crate_ trait_generics method))
unfolding sync_impl hidden_const new_method Overrides
sync_impl-Overrides casing crate_ trait_generics method overrider h same = (
  sync_items casing overrider,
  _,
  subst
      (λ b.
        (if b then success (sync_items casing overrider) else failure sync_not_async)
        ≡ success (sync_items casing overrider))
      (sym (ap (λ s. s.is_async) same ∙ h)) refl,
  sync_method-new_method casing crate_ trait_generics method h,
  (rw same refl, rw (orig_sig-finish_method _ _ _ _ _ _, same) refl, refl, refl),
)

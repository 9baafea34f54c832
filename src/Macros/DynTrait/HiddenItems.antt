-- ===== src/Macros/DynTrait/HiddenItems.antt =====
-- macros/src/dyn_trait.rs: the hidden method and the hidden constant of a `maybe_sync` method, from
-- its signature alone.
use mathlib.Core.List.{append-nil}
use dyn_utils.Prelude.{
  Bool, true, false, Bool-cases, Option, none, some, if◌then◌else◌, ◌≡◌, inl, inr, refl, sym, ap,
  ◌∙◌, List, [], ◌∷◌, ◌++◌,
}
use dyn_utils.Macros.Shared.{and_left, success-bind, success-injective}
use dyn_utils.Macros.Parts.{unwrap_or}
use dyn_utils.Macros.Syntax.{
  Argument, Expr, Ident, Receiver, RustSyntax, Signature, SynPath, TraitItem, TraitItemFn,
  const_item, fn_item, let_underscore, no_types, other_attribute, pattern_expr, success, tuple_type,
  unimplemented,
}
use dyn_utils.Macros.Utils.{
  fn_args, has_dyn_trait_receiver, is_dispatchable, pattern_as_arg, return_type, skip_one,
  typed_args,
}
use dyn_utils.Macros.Sync.{Casing, is_sync_const, sync_fn}
use dyn_utils.Macros.DynTrait.{DynTrait, add_method}
use dyn_utils.Macros.DynTrait.Attrs.{impl_bounds}
use dyn_utils.Macros.DynTrait.Hidden.{orig_sig-new_method}
use dyn_utils.Macros.DynTrait.Method.{
  discard_args, hidden_const, hidden_method, new_method, output_or_unit, rpit_output, sync_method,
}
use dyn_utils.Macros.DynTrait.Names.{rpit-new_method, sync_method-new_method}

-- The output that is awaited: of an async method its own, else that of the future it returns.
abbrev pub awaited : Signature → Option RustSyntax
awaited sig =
    if sig.is_async then some (output_or_unit sig.output) else rpit_output (impl_bounds sig.output)

-- `let _ = arg;` for every argument but `self`, then `::core::unimplemented!()`.
abbrev pub default_body : List Argument → Expr
default_body [] = unimplemented
default_body (arg ∷ args) =
    let_underscore (pattern_expr (pattern_as_arg arg.pattern)) (default_body args)

abbrev pub hidden_fn : Signature → RustSyntax → TraitItemFn
hidden_fn sig output = record {
  attrs = other_attribute "doc(hidden)" ∷ [];
  sig = record sig { is_async = false; ident = sync_fn sig; output = some output };
  default = some (default_body sig.inputs);
}

-- The hidden items of a method: one that has its output in place of a future of it, with a body that
-- panics, and a constant that is false.
abbrev pub hidden_of : Casing → Bool → Signature → List TraitItem
hidden_of casing b sig =
    if b
    then fn_item (hidden_fn sig (unwrap_or (awaited sig) (tuple_type no_types)))
      ∷ const_item record { ident = is_sync_const casing sig; value = false }
      ∷ []
    else []

discard-typed_args : (args : List Argument) → discard_args (typed_args args) ≡ default_body args
discard-typed_args [] = refl
discard-typed_args (arg ∷ args) = rw (discard-typed_args args) refl

discard_args_lem :
    (sig : Signature)
    → has_dyn_trait_receiver sig.receiver ≡ true
    → discard_args (skip_one (fn_args sig)) ≡ default_body sig.inputs
unfolding fn_args has_dyn_trait_receiver
discard_args_lem sig h = with_receiver sig.receiver h
  where
    with_receiver :
        (o : Option Receiver)
        → has_dyn_trait_receiver o ≡ true
        → discard_args (skip_one (fn_args record sig { receiver = o })) ≡ default_body sig.inputs
    with_receiver none h = cc
    with_receiver (some recv) h = discard-typed_args sig.inputs

hidden_method-fn :
    (sig : Signature) (o : Option RustSyntax) (hidden : TraitItemFn)
    → has_dyn_trait_receiver sig.receiver ≡ true
    → hidden_method sig o ≡ success hidden
    → hidden ≡ hidden_fn sig (unwrap_or o (tuple_type no_types))
hidden_method-fn sig none hidden r h = cc
hidden_method-fn sig (some ty) hidden r h =
    sym (success-injective h)
    ∙ ap (λ body. record (hidden_fn sig ty) { default = some body }) (discard_args_lem sig r)

module _ (casing : Casing) (crate_ : SynPath) (gs : List Ident) where
  sync_method-awaited :
      (method : TraitItemFn)
      → sync_method (new_method casing crate_ gs method)
        ≡ hidden_method method.sig (awaited method.sig)
  unfolding sync_method return_type
  sync_method-awaited method =
      let m = new_method casing crate_ gs method in
      let own = some (output_or_unit method.sig.output) in
      let by = λ (b : Bool).
        hidden_method method.sig (if b then own else rpit_output (impl_bounds method.sig.output)) in
      elim (Bool-cases method.sig.is_async) [
        | inl async ↦
            sync_method-new_method casing crate_ gs method async ∙ ap (λ b. by b) (sym async)
        | inr plain ↦
            ap (λ sig. hidden_method sig (rpit_output m.rpit))
              (orig_sig-new_method casing crate_ gs method)
            ∙ ap (λ bs. hidden_method method.sig (rpit_output bs))
                (rpit-new_method casing crate_ gs method plain)
            ∙ ap (λ b. by b) (sym plain)
      ]

  pub hidden-new_method :
      (method : TraitItemFn) (hidden : TraitItemFn)
      → is_dispatchable method ≡ true
      → sync_method (new_method casing crate_ gs method) ≡ success hidden
      → hidden ≡ hidden_fn method.sig (unwrap_or (awaited method.sig) (tuple_type no_types))
  unfolding is_dispatchable
  hidden-new_method method hidden d made =
      hidden_method-fn method.sig (awaited method.sig) hidden (and_left _ _ d)
        (sym (sync_method-awaited method) ∙ made)

-- What a method adds to the trait.
pub hidden-add_method :
    (casing : Casing) (self self1 : DynTrait) (crate_ : SynPath) (gs : List Ident)
    (method : TraitItemFn) (maybe_sync : Bool)
    → is_dispatchable method ≡ true
    → add_method casing self (new_method casing crate_ gs method) maybe_sync ≡ success self1
    → self1.additional_trait_items
      ≡ self.additional_trait_items ++ hidden_of casing maybe_sync method.sig
unfolding add_method hidden_const
hidden-add_method casing self self1 crate_ gs method false d eq =
    ap (λ s. s.additional_trait_items) (sym (success-injective eq)) ∙ sym (append-nil _)
hidden-add_method casing self self1 crate_ gs method true d eq =
    let m = new_method casing crate_ gs method in
    let (hidden, made, eq1) = success-bind (sync_method m) _ _ eq in
    ap (λ s. s.additional_trait_items) (sym (success-injective eq1))
    ∙ ap
        (λ f.
          self.additional_trait_items
          ++ (fn_item f
              ∷ const_item record { ident = is_sync_const casing m.orig_sig; value = false }
              ∷ []))
        (hidden-new_method casing crate_ gs method hidden d made)
    ∙ ap
        (λ sig.
          self.additional_trait_items
          ++ (fn_item (hidden_fn method.sig (unwrap_or (awaited method.sig) (tuple_type no_types)))
              ∷ const_item record { ident = is_sync_const casing sig; value = false }
              ∷ []))
        (orig_sig-new_method casing crate_ gs method)

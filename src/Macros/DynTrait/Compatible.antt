-- ===== src/Macros/DynTrait/Compatible.antt =====
-- macros/src/dyn_trait.rs: the receivers, generics, argument patterns and outputs of the written
-- trait. The types of its arguments are not looked at.
use dyn_utils.Prelude.{
  Bool, true, false, not, ◌&&◌, Option, none, some, if◌then◌else◌, ◌≡◌, refl, ap, sym, subst, ◌∙◌,
  List, [], ◌∷◌, ◌++◌, map,
}
use dyn_utils.Macros.Shared.{and_intro, and_left, and_right, success-bind, success-injective}
use dyn_utils.Macros.Syntax.{
  Bounds, Ident, ItemTrait, RustSyntax, Signature, SynPath, TraitItem, TraitItemFn, const_item,
  fn_item, success, type_item, verbatim_item,
}
use dyn_utils.Macros.Utils.{
  all, has_dyn_trait_receiver, is_dispatchable, is_lifetime_param, is_none, is_not_generic,
  return_type,
}
use dyn_utils.Macros.Sync.{Casing}
use dyn_utils.Macros.DynTrait.{
  DynTrait, DynTraitOpts, DynTraitOutput, add_method, dyn_trait_impl, new, parse_type,
}
use dyn_utils.Macros.DynTrait.Attrs.{MethodAttrs, impl_bounds, parse_attrs}
use dyn_utils.Macros.DynTrait.Attrs.Laws.{parse_attrs_lem}
use dyn_utils.Macros.DynTrait.Loop.{dyn_trait_impl_inv}
use dyn_utils.Macros.DynTrait.Method.{
  DynMethod, argument_as_arg, desugar_async, finish_method, maybe_sync_method, maybe_sync_signature,
  maybe_sync_type, new_method, sync_method, update_dyn_signature,
}
use dyn_utils.Macros.DynTrait.Receivers.{
  argument_as_arg-is_plain, has_dyn_trait_receiver-visit_receiver,
  is_lifetime_param-visit_generic_param, is_plain, is_plain-visit_argument,
}

-- What the macro keeps of a method's own signature: the receiver, the generics, the patterns.
abbrev pub callable : Signature → Bool
callable sig =
    has_dyn_trait_receiver sig.receiver
    && (all is_lifetime_param sig.generics && all (λ arg. is_plain arg.pattern) sig.inputs)

-- Not async, no `impl Trait` returned.
abbrev pub returns_plainly : Signature → Bool
returns_plainly sig = not sig.is_async && is_none (impl_bounds sig.output)

-- A type without parameters, or a method without a body, callable and returning plainly.
abbrev pub compatible : TraitItem → Bool
compatible (type_item ty) = is_not_generic ty
compatible (fn_item method) =
    is_none method.default && (callable method.sig && returns_plainly method.sig)
compatible (const_item k) = false
compatible (verbatim_item s) = false

all-snoc {ℓ} :
    {A : Type ℓ} (test : A → Bool) (xs : List A) (x : A)
    → all test xs ≡ true
    → test x ≡ true
    → all test (xs ++ (x ∷ [])) ≡ true
all-snoc test [] x h k = and_intro k refl
all-snoc test (y ∷ ys) x h k = and_intro (and_left _ _ h) (all-snoc test ys x (and_right _ _ h) k)

callable-if :
    (b : Bool) (x y : Signature)
    → callable x ≡ true
    → callable y ≡ true
    → callable (if b then x else y) ≡ true
callable-if true x y h k = h
callable-if false x y h k = k

callable-desugar_async :
    (sig : Signature) → callable sig ≡ true → callable (desugar_async sig) ≡ true
unfolding desugar_async
callable-desugar_async sig h = callable-if sig.is_async _ sig h h

is_async-if :
    (b : Bool) (x y : Signature)
    → x.is_async ≡ false
    → y.is_async ≡ b
    → (if b then x else y).is_async ≡ false
is_async-if true x y h k = h
is_async-if false x y h k = k

is_async-desugar_async : (sig : Signature) → (desugar_async sig).is_async ≡ false
unfolding desugar_async
is_async-desugar_async sig = is_async-if sig.is_async _ sig refl refl

callable-update_dyn_signature :
    (crate_ : SynPath) (gs : List Ident) (sig : Signature) (rpit : Bounds) (storage : Ident)
    → callable sig ≡ true
    → callable (update_dyn_signature crate_ gs sig rpit storage) ≡ true
unfolding update_dyn_signature is_lifetime_param
callable-update_dyn_signature crate_ gs sig rpit storage h =
    and_intro (has_dyn_trait_receiver-visit_receiver _ sig.receiver (and_left _ _ h)) (
      and_intro
        (is_lifetime_param-visit_generic_param _ sig.generics (and_left _ _ (and_right _ _ h)))
        (is_plain-visit_argument _ sig.inputs (and_right _ _ (and_right _ _ h))))

maybe_sync_type-plain :
    (crate_ : SynPath) (o : Option RustSyntax)
    → is_none (impl_bounds (maybe_sync_type crate_ o)) ≡ true
unfolding impl_bounds
maybe_sync_type-plain crate_ none = refl
maybe_sync_type-plain crate_ (some ty) = refl

-- A method without a body that is callable and returns plainly.
record IsGood (method : TraitItemFn) : Type 0 where
  no_body : method.default ≡ none
  is_callable : callable method.sig ≡ true
  no_async : method.sig.is_async ≡ false
  no_impl : is_none (impl_bounds method.sig.output) ≡ true

IsGood-compatible : (method : TraitItemFn) → IsGood method → compatible (fn_item method) ≡ true
IsGood-compatible method g = and_intro {a = is_none method.default} (ap is_none g.no_body) (
    and_intro {a = callable method.sig} g.is_callable
      (and_intro {a = not method.sig.is_async} (ap not g.no_async) g.no_impl))

IsGood-finish_method :
    (crate_ : SynPath) (gs : List Ident) (orig : Signature) (method : TraitItemFn)
    (o : Option Bounds) (storage : Ident)
    → method.default ≡ none
    → method.sig.is_async ≡ false
    → callable method.sig ≡ true
    → impl_bounds method.sig.output ≡ o
    → IsGood (finish_method crate_ gs orig method o storage).dyn_method
unfolding update_dyn_signature impl_bounds
IsGood-finish_method crate_ gs orig method none storage d a c e = record {
  no_body = d;
  is_callable = c;
  no_async = a;
  no_impl = ap is_none e;
}
IsGood-finish_method crate_ gs orig method (some bs) storage d a c e = record {
  no_body = d;
  is_callable = callable-update_dyn_signature crate_ gs method.sig bs storage c;
  no_async = a;
  no_impl = refl;
}

module _ (casing : Casing) where
  IsGood-new_method :
      (crate_ : SynPath) (gs : List Ident) (method : TraitItemFn)
      → is_dispatchable method ≡ true
      → IsGood (new_method casing crate_ gs method).dyn_method
  unfolding new_method return_type is_dispatchable
  IsGood-new_method crate_ gs method h =
      let sig = record method.sig { inputs = map argument_as_arg method.sig.inputs } in
      IsGood-finish_method crate_ gs method.sig
        record { attrs = method.attrs; sig = desugar_async sig; default = none } _ _ refl
        (is_async-desugar_async sig)
        (callable-desugar_async sig (
          and_intro {a = has_dyn_trait_receiver method.sig.receiver} (and_left _ _ h) (
            and_intro {a = all is_lifetime_param method.sig.generics} (and_right _ _ h)
              (argument_as_arg-is_plain method.sig.inputs))))
        refl

  IsGood-maybe_sync_method : (m : DynMethod) → IsGood m.dyn_method → IsGood (maybe_sync_method m)
  unfolding maybe_sync_method maybe_sync_signature return_type
  IsGood-maybe_sync_method m g = record {
    no_body = g.no_body;
    is_callable = g.is_callable;
    no_async = g.no_async;
    no_impl = maybe_sync_type-plain m.crate_ m.dyn_method.sig.output;
  }

  AllCompatible : DynTrait → Type 0
  AllCompatible self = all compatible self.dyn_items ≡ true

  add_method-AllCompatible :
      (self self1 : DynTrait) (m : DynMethod) (maybe_sync : Bool)
      → AllCompatible self
      → IsGood m.dyn_method
      → add_method casing self m maybe_sync ≡ success self1
      → AllCompatible self1
  unfolding add_method AllCompatible
  add_method-AllCompatible self self1 m true h g eq =
      let (hidden, _, eq1) = success-bind (sync_method m) _ _ eq in
      subst AllCompatible (success-injective eq1) (
        all-snoc compatible self.dyn_items _ h (IsGood-compatible _ (IsGood-maybe_sync_method m g)))
  add_method-AllCompatible self self1 m false h g eq =
      subst AllCompatible (success-injective eq)
        (all-snoc compatible self.dyn_items _ h (IsGood-compatible _ g))

  parsed-is_dispatchable :
      (method : TraitItemFn) (parsed : MethodAttrs × TraitItemFn)
      → is_dispatchable method ≡ true
      → parse_attrs method ≡ success parsed
      → is_dispatchable parsed.1 ≡ true
  unfolding is_dispatchable
  parsed-is_dispatchable method parsed d read =
      subst (λ m. is_dispatchable m ≡ true) (sym (parse_attrs_lem method parsed read).2) d

-- When `dyn_trait` succeeds, every item of the dyn trait is a type that is not generic, or a method
-- without a body. Such a method has a receiver that is a reference or a pinned reference, no generic
-- parameter but lifetimes, and no argument that binds an identifier with `ref`, `mut` or `@`; it is
-- not async, and its output is no `impl Trait`.
pub dyn_trait_impl-compatible :
    (casing : Casing) (crate_name : SynPath) (trait : ItemTrait) (opts : DynTraitOpts)
    (out : DynTraitOutput)
    → dyn_trait_impl casing crate_name trait opts ≡ success out
    → all compatible out.dyn_trait.items ≡ true
unfolding AllCompatible new parse_type
dyn_trait_impl-compatible casing crate_name trait opts out eq =
    let (self, good_items, dyn_items, _, _) =
      dyn_trait_impl_inv casing (λ done self. AllCompatible casing self)
        (λ done self ty d h. all-snoc compatible self.dyn_items _ h d)
        (λ done self self1 method parsed d read h added.
          add_method-AllCompatible casing _ self1 _ _ h
            (IsGood-new_method casing self.crate_ self.trait_generics parsed.1
              (parsed-is_dispatchable casing method parsed d read))
            added)
        (λ done self item d h. h) crate_name trait opts out (λ t i g. refl) eq in
    ap (all compatible) dyn_items ∙ good_items

-- ===== src/Macros/DynTrait/Method.antt =====
-- macros/src/dyn_trait.rs: `DynMethod`, the dyn-compatible version of one method.
use Prim.Native.String.{◌++◌ as str_append}
use mathlib.Core.Option.{map as option_map}
use dyn_utils.Prelude.{false, Option, none, some, if◌then◌else◌, List, [], ◌∷◌, ◌++◌, map}
use dyn_utils.Macros.Parts.{unwrap_or}
use dyn_utils.Macros.Syntax.{
  Argument, Bounds, Expr, Exprs, GenericParam, Ident, ImplItemFn, Predicate, Result, RustSyntax,
  Signature, SynPath, TraitItemConst, TraitItemFn, angle_bracketed, assoc_type, call_expr, failure,
  if_expr, impl_trait, let_underscore, lifetime_bound, lifetime_param, more_exprs, no_arguments,
  no_bounds, no_exprs, no_generic, no_types, not_async_method, other_attribute, path_expr,
  path_type, precise_capture, segment, success, trait_bound, trait_object, tuple_type,
  type_argument, type_param, unimplemented,
}
use dyn_utils.Macros.Visit.{visit_path}
use dyn_utils.Macros.Utils.{
  fn_args, future_output, impl_method, is_some, path_append, pattern_as_arg, return_type, skip_one,
}
use dyn_utils.Macros.Sync.{Casing, is_sync_const, sync_fn}
use dyn_utils.Macros.DynTrait.Attrs.{impl_bounds}
use dyn_utils.Macros.DynTrait.Captured.{
  CapturedLifetimes, captured_visitor, new, visit_argument, visit_generic_param, visit_receiver,
}

-- The storage's name is there when `rpit` is.
pub record DynMethod : Type 0 where
  pub orig_sig : Signature
  pub crate_ : SynPath
  pub dyn_method : TraitItemFn
  pub rpit : Option Bounds
  pub storage : Option Ident

abbrev pub argument_as_arg : Argument → Argument
argument_as_arg arg = record arg { pattern = pattern_as_arg arg.pattern }

abbrev ident_path : Ident → SynPath
ident_path i = segment i no_arguments

abbrev pub output_or_unit : Option RustSyntax → RustSyntax
output_or_unit none = tuple_type no_types
output_or_unit (some ty) = ty

-- `impl Future<Output = T>` for the output `T` of an async function.
abbrev pub future_of : RustSyntax → RustSyntax
future_of ty =
    impl_trait (
      trait_bound (segment "Future" (angle_bracketed (assoc_type "Output" ty no_generic)))
        no_bounds)

unfoldable pub desugar_async : Signature → Signature
desugar_async sig =
    if sig.is_async
    then record sig {
      is_async = false;
      output = some (future_of (output_or_unit (return_type sig)));
    }
    else sig

-- The bounds of the trait object: the traits among the bounds, visited, and `'__dyn`.
unfoldable pub dyn_bounds : CapturedLifetimes → Bounds → Bounds
dyn_bounds captured no_bounds = lifetime_bound "'__dyn" no_bounds
dyn_bounds captured (trait_bound p bs) =
    trait_bound (visit_path (captured_visitor captured) p) (dyn_bounds captured bs)
dyn_bounds captured (lifetime_bound lt bs) = dyn_bounds captured bs
dyn_bounds captured (precise_capture cs bs) = dyn_bounds captured bs

abbrev pub outlives_dyn : Ident → Predicate
outlives_dyn i = record {
  subject = path_type (ident_path i);
  bounds = lifetime_bound "'__dyn" no_bounds;
}

-- `crate::DynObject<ret, storage>`
abbrev pub dyn_object_type : SynPath → RustSyntax → Ident → RustSyntax
dyn_object_type crate_ ret storage = path_type (
    path_append crate_ "DynObject" (
      angle_bracketed
        (type_argument ret (type_argument (path_type (ident_path storage)) no_generic))))

unfoldable pub update_dyn_signature : SynPath → List Ident → Signature → Bounds → Ident → Signature
update_dyn_signature crate_ trait_generics sig rpit storage =
    let captured = new rpit sig.generics in
    record sig {
      predicates =
          sig.predicates ++ (map outlives_dyn trait_generics ++ (outlives_dyn "Self" ∷ []));
      generics = lifetime_param "'__dyn" [] ∷ map (visit_generic_param captured) sig.generics;
      receiver = option_map (visit_receiver captured) sig.receiver;
      inputs = map (visit_argument captured) sig.inputs;
      output = some (dyn_object_type crate_ (trait_object (dyn_bounds captured rpit)) storage);
    }

abbrev pub storage_name : Casing → Signature → Ident
storage_name casing sig = str_append "__Storage" (casing.to_pascal_case sig.ident)

-- What `new` does once it knows whether the method returns an `impl Trait`.
abbrev pub finish_method :
    SynPath → List Ident → Signature → TraitItemFn → Option Bounds → Ident → DynMethod
finish_method crate_ trait_generics orig_sig method none storage = record {
  orig_sig = orig_sig;
  crate_ = crate_;
  dyn_method = method;
  rpit = none;
  storage = none;
}
finish_method crate_ trait_generics orig_sig method (some rpit) storage = record {
  orig_sig = orig_sig;
  crate_ = crate_;
  dyn_method = record method {
    sig = update_dyn_signature crate_ trait_generics method.sig rpit storage;
  };
  rpit = some rpit;
  storage = some storage;
}

unfoldable pub new_method : Casing → SynPath → List Ident → TraitItemFn → DynMethod
new_method casing crate_ trait_generics method =
    let sig = desugar_async record method.sig { inputs = map argument_as_arg method.sig.inputs } in
    finish_method crate_ trait_generics method.sig
      record { attrs = method.attrs; sig = sig; default = none } (impl_bounds (return_type sig))
      (storage_name casing sig)

-- The storage parameter, with `storage::DefaultStorage` of the crate if none is given.
unfoldable pub generic_storage : DynMethod → Option SynPath → Option GenericParam
generic_storage self default_storage = elim self.storage [
  | none ↦ none
  | some storage ↦ some (
      type_param storage
        (trait_bound
          (path_append (path_append self.crate_ "storage" no_arguments) "Storage" no_arguments)
          no_bounds)
        (some (
          path_type (
            unwrap_or default_storage (
              path_append (path_append self.crate_ "storage" no_arguments) "DefaultStorage"
                no_arguments)))))
]

-- `__Dyn::name(args)`
abbrev pub dyn_call : Ident → Exprs → Expr
dyn_call name args = call_expr (path_expr (path_append (ident_path "__Dyn") name no_arguments)) args

-- `crate::DynObject::new(call)`
abbrev pub new_object : SynPath → Expr → Expr
new_object crate_ call =
    call_expr
      (path_expr (path_append (path_append crate_ "DynObject" no_arguments) "new" no_arguments))
      (more_exprs call no_exprs)

-- `DynMethod::impl_method`: the implementation calls the method of `__Dyn`.
unfoldable pub forward_method : DynMethod → ImplItemFn
forward_method self =
    let call = dyn_call self.orig_sig.ident (fn_args self.orig_sig) in
    impl_method self.dyn_method.sig
      (if is_some self.rpit then new_object self.crate_ call else call)

abbrev pub discard_args : Exprs → Expr
discard_args no_exprs = unimplemented
discard_args (more_exprs e es) = let_underscore e (discard_args es)

abbrev pub rpit_output : Option Bounds → Option RustSyntax
rpit_output none = none
rpit_output (some bs) = future_output bs

abbrev pub hidden_method : Signature → Option RustSyntax → Result TraitItemFn
hidden_method sig none = failure not_async_method
hidden_method sig (some output) = success record {
  attrs = other_attribute "doc(hidden)" ∷ [];
  sig = record sig { is_async = false; ident = sync_fn sig; output = some output };
  default = some (discard_args (skip_one (fn_args sig)));
}

-- The hidden method that `sync` overrides.
unfoldable pub sync_method : DynMethod → Result TraitItemFn
sync_method self = hidden_method self.orig_sig (rpit_output self.rpit)

-- `DynMethod::is_sync_const`: the hidden constant that `sync` overrides.
unfoldable pub hidden_const : Casing → DynMethod → TraitItemConst
hidden_const casing self = record { ident = is_sync_const casing self.orig_sig; value = false }

-- A method without an output does not come here: the source unwraps it.
abbrev pub maybe_sync_type : SynPath → Option RustSyntax → Option RustSyntax
maybe_sync_type crate_ none = none
maybe_sync_type crate_ (some output) =
    some (
      path_type
        (path_append crate_ "MaybeSync" (angle_bracketed (type_argument output no_generic))))

unfoldable pub maybe_sync_signature : DynMethod → Signature
maybe_sync_signature self = record self.dyn_method.sig {
  output = maybe_sync_type self.crate_ (return_type self.dyn_method.sig);
}

unfoldable pub maybe_sync_method : DynMethod → TraitItemFn
maybe_sync_method self = record self.dyn_method { sig = maybe_sync_signature self }

-- `crate::MaybeSync::variant(e)`
abbrev pub maybe_sync_variant : SynPath → Ident → Expr → Expr
maybe_sync_variant crate_ variant e =
    call_expr
      (path_expr (path_append (path_append crate_ "MaybeSync" no_arguments) variant no_arguments))
      (more_exprs e no_exprs)

unfoldable pub maybe_sync_impl : Casing → DynMethod → ImplItemFn
maybe_sync_impl casing self =
    let args = fn_args self.orig_sig in
    impl_method (maybe_sync_signature self) (
      if_expr
        (path_expr
          (path_append (ident_path "__Dyn") (is_sync_const casing self.orig_sig) no_arguments))
        (maybe_sync_variant self.crate_ "Sync" (dyn_call (sync_fn self.orig_sig) args))
        (maybe_sync_variant self.crate_ "Async"
          (new_object self.crate_ (dyn_call self.orig_sig.ident args))))

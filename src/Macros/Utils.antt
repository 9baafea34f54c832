-- ===== src/Macros/Utils.antt =====
-- macros/src/utils.rs: what the macros ask of a signature, and the parts they build from it.
use text.Mathlib.Text.{◌==◌ as str_eq}
use dyn_utils.Prelude.{Bool, true, false, ◌&&◌, Option, none, some, if◌then◌else◌, List, [], ◌∷◌}
use dyn_utils.Macros.Syntax.{
  Argument, Arguments, Bounds, Expr, Exprs, GenericArguments, GenericParam, Ident, ImplItemFn,
  Lifetime, Pattern, Patterns, Receiver, RustSyntax, Signature, SynPath, TraitItemFn, TraitItemType,
  angle_bracketed, assoc_type, bound_pattern, compound_pattern, ident_pattern, lifetime_argument,
  lifetime_bound, lifetime_param, more_exprs, more_patterns, no_arguments, no_bounds, no_exprs,
  no_generic, no_patterns, other_argument, path_type, pattern_expr, precise_capture, prefixed,
  reference, segment, self_expr, trait_bound, type_argument,
}

abbrev pub all {ℓ} : {A : Type ℓ} → (A → Bool) → List A → Bool
all test [] = true
all test (x ∷ xs) = test x && all test xs

abbrev pub is_empty {ℓ} : {A : Type ℓ} → List A → Bool
is_empty [] = true
is_empty (x ∷ xs) = false

abbrev pub is_some {ℓ} : {A : Type ℓ} → Option A → Bool
is_some none = false
is_some (some a) = true

abbrev pub is_none {ℓ} : {A : Type ℓ} → Option A → Bool
is_none none = true
is_none (some a) = false

-- The generic parameters are empty and there is no where clause.
unfoldable pub is_not_generic : TraitItemType → Bool
is_not_generic ty = is_empty ty.params && is_none ty.where_clause

-- `Some(last)` if the last segment has the name: here its arguments.
unfoldable pub last_segment : SynPath → Ident → Option Arguments
last_segment (segment i args) name = if str_eq i name then some args else none
last_segment (prefixed i args p) name = last_segment p name

-- The type `Self` alone.
unfoldable pub is_self_type : RustSyntax → Bool
is_self_type (path_type (segment i no_arguments)) = str_eq i "Self"
is_self_type _ = false

abbrev pub self_reference : RustSyntax → Option (Option Lifetime)
self_reference (reference lt mutability ty) = if is_self_type ty then some lt else none
self_reference _ = none

abbrev pub first_self_reference : Arguments → Option (Option Lifetime)
first_self_reference (angle_bracketed (type_argument ty gs)) = self_reference ty
first_self_reference _ = none

abbrev pub last_self_reference : Option Arguments → Option (Option Lifetime)
last_self_reference none = none
last_self_reference (some args) = first_self_reference args

-- The reference in `Pin<&mut Self>`, by its lifetime.
unfoldable pub pinned_ref : RustSyntax → Option (Option Lifetime)
pinned_ref (path_type p) = last_self_reference (last_segment p "Pin")
pinned_ref _ = none

unfoldable pub has_dyn_trait_receiver : Option Receiver → Bool
has_dyn_trait_receiver none = false
has_dyn_trait_receiver (some recv) = elim recv.reference [
  | some lt ↦ true
  | none ↦ is_some (pinned_ref recv.ty)
]

unfoldable pub is_lifetime_param : GenericParam → Bool
is_lifetime_param (lifetime_param lt bs) = true
is_lifetime_param _ = false

unfoldable pub is_dispatchable : TraitItemFn → Bool
is_dispatchable method =
    has_dyn_trait_receiver method.sig.receiver && all is_lifetime_param method.sig.generics

unfoldable pub return_type : Signature → Option RustSyntax
return_type sig = sig.output

-- The first trait bound that ends in `Future`, by the arguments of that segment.
abbrev find_future : Bounds → Option Arguments
find_future no_bounds = none
find_future (trait_bound p bs) =
    let rest = find_future bs in
    elim (last_segment p "Future") [ some args ↦ some args | none ↦ rest ]
find_future (lifetime_bound lt bs) = find_future bs
find_future (precise_capture cs bs) = find_future bs

abbrev find_output : GenericArguments → Option RustSyntax
find_output no_generic = none
find_output (lifetime_argument lt gs) = find_output gs
find_output (type_argument ty gs) = find_output gs
find_output (assoc_type i ty gs) =
    let rest = find_output gs in if str_eq i "Output" then some ty else rest
find_output (other_argument s gs) = find_output gs

abbrev output_of : Arguments → Option RustSyntax
output_of (angle_bracketed gs) = find_output gs
output_of _ = none

-- The type `T` of `impl Future<Output = T>`.
unfoldable pub future_output : Bounds → Option RustSyntax
future_output bs = elim (find_future bs) [ none ↦ none | some args ↦ output_of args ]

-- `ref`, `mut` and `@` are dropped from every identifier of a pattern.
unfoldable mutual
  pub pattern_as_arg : Pattern → Pattern
  pattern_as_arg (ident_pattern by_ref mutability i) = ident_pattern false false i
  pattern_as_arg (bound_pattern by_ref mutability i subpat) = ident_pattern false false i
  pattern_as_arg (compound_pattern s ps) = compound_pattern s (patterns_as_arg ps)

  pub patterns_as_arg : Patterns → Patterns
  patterns_as_arg no_patterns = no_patterns
  patterns_as_arg (more_patterns p ps) = more_patterns (pattern_as_arg p) (patterns_as_arg ps)

abbrev pub typed_args : List Argument → Exprs
typed_args [] = no_exprs
typed_args (arg ∷ args) = more_exprs (pattern_expr (pattern_as_arg arg.pattern)) (typed_args args)

-- The arguments of a call with the names of the signature's: `self` and the patterns.
unfoldable pub fn_args : Signature → Exprs
fn_args sig = elim sig.receiver [
  | none ↦ typed_args sig.inputs
  | some recv ↦ more_exprs self_expr (typed_args sig.inputs)
]

abbrev pub skip_one : Exprs → Exprs
skip_one no_exprs = no_exprs
skip_one (more_exprs e es) = es

unfoldable pub impl_method : Signature → Expr → ImplItemFn
impl_method sig block = record { sig = sig; block = block }

-- `path::name<args>`, as the quotations write it.
abbrev pub path_append : SynPath → Ident → Arguments → SynPath
path_append (segment i xs) name args = prefixed i xs (segment name args)
path_append (prefixed i xs p) name args = prefixed i xs (path_append p name args)

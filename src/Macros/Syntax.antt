-- ===== src/Macros/Syntax.antt =====
-- The syntax trees that the macros read and write, in the parts that they look at: types, paths and
-- bounds, signatures and trait items of the crate `syn`.
use dyn_utils.Prelude.{String, Bool, Option, List}

abbrev pub Ident : Type 0
Ident = String

-- A lifetime with its quote, such as `'a` or `'_`.
abbrev pub Lifetime : Type 0
Lifetime = String

mutual
  pub data RustSyntax : Type 0 where
    path_type : SynPath → RustSyntax
    reference : Option Lifetime → Bool → RustSyntax → RustSyntax
    impl_trait : Bounds → RustSyntax
    trait_object : Bounds → RustSyntax
    tuple_type : Types → RustSyntax
    -- a slice, an array, a pointer or a function: its kind, and the types in it
    compound_type : String → Types → RustSyntax
    verbatim : String → RustSyntax
    -- `<T as Trait>::Name`
    qualified : RustSyntax → SynPath → Ident → RustSyntax

  pub data Types : Type 0 where
    no_types : Types
    more_types : RustSyntax → Types → Types

  -- a path has one segment or more
  pub data SynPath : Type 0 where
    segment : Ident → Arguments → SynPath
    prefixed : Ident → Arguments → SynPath → SynPath

  pub data Arguments : Type 0 where
    no_arguments : Arguments
    angle_bracketed : GenericArguments → Arguments
    parenthesized : Types → RustSyntax → Arguments
    -- a list written after arguments that are there already, which is no path
    second_list : Arguments → GenericArguments → Arguments

  pub data GenericArguments : Type 0 where
    no_generic : GenericArguments
    lifetime_argument : Lifetime → GenericArguments → GenericArguments
    type_argument : RustSyntax → GenericArguments → GenericArguments
    assoc_type : Ident → RustSyntax → GenericArguments → GenericArguments
    other_argument : String → GenericArguments → GenericArguments

  pub data Bounds : Type 0 where
    no_bounds : Bounds
    trait_bound : SynPath → Bounds → Bounds
    lifetime_bound : Lifetime → Bounds → Bounds
    precise_capture : Captures → Bounds → Bounds

  -- what stands in `use<...>`: a lifetime, or the name of a type
  pub data Captures : Type 0 where
    no_captures : Captures
    capture_lifetime : Lifetime → Captures → Captures
    capture_ident : Ident → Captures → Captures

-- Generic parameters of a method or a trait.
pub data GenericParam : Type 0 where
  lifetime_param : Lifetime → List Lifetime → GenericParam
  type_param : Ident → Bounds → Option RustSyntax → GenericParam
  const_param : Ident → RustSyntax → Option String → GenericParam

-- A predicate of a where clause: a type or a type parameter, and what it outlives or implements.
pub record Predicate : Type 0 where
  pub subject : RustSyntax
  pub bounds : Bounds

-- `self`: the lifetime of `&self` or `&mut self` if it is a reference, `mut`, and the type.
pub record Receiver : Type 0 where
  pub reference : Option (Option Lifetime)
  pub mutability : Bool
  pub ty : RustSyntax

mutual
  pub data Pattern : Type 0 where
    ident_pattern : Bool → Bool → Ident → Pattern
    bound_pattern : Bool → Bool → Ident → Pattern → Pattern
    compound_pattern : String → Patterns → Pattern

  pub data Patterns : Type 0 where
    no_patterns : Patterns
    more_patterns : Pattern → Patterns → Patterns

pub record Argument : Type 0 where
  pub pattern : Pattern
  pub ty : RustSyntax

pub record Signature : Type 0 where
  pub is_async : Bool
  pub is_unsafe : Bool
  pub ident : Ident
  pub generics : List GenericParam
  pub predicates : List Predicate
  pub receiver : Option Receiver
  pub inputs : List Argument
  pub output : Option RustSyntax

-- What the macros find in `#[dyn_trait(...)]` on a method: an item with its value.
-- An error that the macro reports, by its message.
pub data MacroError : Type 0 where
  unknown_attribute not_on_rpit not_async_method sync_not_async : MacroError
  generics_with_dyn_object not_dispatchable generic_assoc_type unsupported_item not_a_list :
      MacroError
  invalid_trait_name expected_plus : MacroError
  -- an error of syn, with its text
  syntax_error : String → MacroError
  -- the macro panics, which the compiler reports as an error
  macro_panicked : MacroError

-- The items of a `dyn_trait` attribute on a method. One that cannot be read, such as `storage` with
-- no `=` or no path after it, is the error of syn; an attribute with no list is one such item.
pub data MetaItem : Type 0 where
  storage_item : SynPath → MetaItem
  maybe_sync_item : MetaItem
  unknown_item : Ident → MetaItem
  unreadable_item : MacroError → MetaItem

pub data Attribute : Type 0 where
  dyn_trait_attribute : List MetaItem → Attribute
  other_attribute : String → Attribute

-- An attribute of a trait: a path with what follows it, or a path with an attribute or other
-- tokens in parentheses.
pub data TraitAttribute : Type 0 where
  plain_attribute : SynPath → String → TraitAttribute
  list_attribute : SynPath → TraitAttribute → TraitAttribute
  -- a list that is no attribute
  list_tokens : SynPath → String → TraitAttribute

mutual
  pub data Expr : Type 0 where
    self_expr : Expr
    pattern_expr : Pattern → Expr
    path_expr : SynPath → Expr
    call_expr : Expr → Exprs → Expr
    method_call : Expr → Ident → Exprs → Expr
    field_expr : Expr → Ident → Expr
    if_expr : Expr → Expr → Expr → Expr
    let_underscore : Expr → Expr → Expr
    unimplemented : Expr

  pub data Exprs : Type 0 where
    no_exprs : Exprs
    more_exprs : Expr → Exprs → Exprs

pub record TraitItemFn : Type 0 where
  pub attrs : List Attribute
  pub sig : Signature
  pub default : Option Expr

pub record TraitItemType : Type 0 where
  pub ident : Ident
  pub params : List GenericParam
  pub where_clause : Option (List Predicate)
  pub bounds : Bounds

pub record TraitItemConst : Type 0 where
  pub ident : Ident
  pub value : Bool

pub data TraitItem : Type 0 where
  type_item : TraitItemType → TraitItem
  fn_item : TraitItemFn → TraitItem
  const_item : TraitItemConst → TraitItem
  verbatim_item : String → TraitItem

pub record ImplItemFn : Type 0 where
  pub sig : Signature
  pub block : Expr

pub data ImplItem : Type 0 where
  impl_type_item : Ident → RustSyntax → ImplItem
  impl_fn_item : ImplItemFn → ImplItem

pub record ItemTrait : Type 0 where
  pub attrs : List TraitAttribute
  pub is_unsafe : Bool
  pub ident : Ident
  pub generics : List GenericParam
  pub predicates : List Predicate
  pub supertraits : Bounds
  pub items : List TraitItem

pub data Result {ℓ} (A : Type ℓ) : Type ℓ where
  success : A → Result A
  failure : MacroError → Result A

infixl 5 ◌>>=◌
abbrev pub ◌>>=◌ {ℓ κ} : {A : Type ℓ} {B : Type κ} → Result A → (A → Result B) → Result B
success a >>= f = f a
failure e >>= f = failure e

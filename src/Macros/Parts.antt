-- ===== src/Macros/Parts.antt =====
-- Parts of a syntax tree that several of the macros read or write.
use dyn_utils.Prelude.{if◌then◌else◌, Option, none, some, List, [], ◌∷◌}
use dyn_utils.Macros.Utils.{is_empty}
use dyn_utils.Macros.Syntax.{
  GenericArguments, GenericParam, Lifetime, SynPath, TraitAttribute, angle_bracketed, const_param,
  lifetime_argument, lifetime_param, list_attribute, no_arguments, no_generic, path_type, Arguments,
  no_arguments, second_list, list_tokens, plain_attribute, prefixed, segment, type_argument,
  type_param,
}

abbrev pub unwrap_or {ℓ} : {A : Type ℓ} → Option A → A → A
unwrap_or none a = a
unwrap_or (some a) b = a

-- The path of an attribute's meta.
abbrev pub attribute_path : TraitAttribute → SynPath
attribute_path (plain_attribute p s) = p
attribute_path (list_tokens p s) = p
attribute_path (list_attribute p inner) = p

-- The lifetimes among generic parameters.
abbrev pub generic_lifetimes : List GenericParam → List Lifetime
generic_lifetimes [] = []
generic_lifetimes (lifetime_param lt bs ∷ ps) = lt ∷ generic_lifetimes ps
generic_lifetimes (type_param i bs d ∷ ps) = generic_lifetimes ps
generic_lifetimes (const_param i ty d ∷ ps) = generic_lifetimes ps

-- A list of arguments written after those that are there.
abbrev append_list : Arguments → GenericArguments → Arguments
append_list no_arguments gs = angle_bracketed gs
append_list args gs = second_list args gs

-- The path with a list of arguments written after it.
abbrev pub path_with : SynPath → GenericArguments → SynPath
path_with (segment i args) gs = segment i (append_list args gs)
path_with (prefixed i args p) gs = prefixed i args (path_with p gs)

abbrev pub type_generics : List GenericParam → GenericArguments
type_generics [] = no_generic
type_generics (lifetime_param lt bs ∷ ps) = lifetime_argument lt (type_generics ps)
type_generics (type_param i bs d ∷ ps) =
    type_argument (path_type (segment i no_arguments)) (type_generics ps)
type_generics (const_param i ty d ∷ ps) =
    type_argument (path_type (segment i no_arguments)) (type_generics ps)

abbrev pub with_generics : SynPath → List GenericParam → SynPath
with_generics p ps = if is_empty ps then p else path_with p (type_generics ps)

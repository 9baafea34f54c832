-- ===== src/Macros/DynTrait/Attrs/Laws.antt =====
-- macros/src/dyn_trait.rs: what `MethodAttrs::parse` reads from a method, and what it leaves there.
use dyn_utils.Prelude.{
  Bool, true, false, ◌||◌, Option, none, some, ◌≡◌, refl, sym, ap, ◌∙◌, subst, List, [], ◌∷◌, ◌++◌,
}
use dyn_utils.Macros.Syntax.{
  Attribute, MetaItem, SynPath, TraitItemFn, dyn_trait_attribute, maybe_sync_item, other_attribute,
  storage_item, success, unknown_item, unreadable_item,
}
use dyn_utils.Macros.Shared.{success-bind, success-injective}
use dyn_utils.Macros.DynTrait.Attrs.{
  MethodAttrs, default_attrs, has_rpit, parse_attributes, parse_attrs, parse_nested_meta,
}

-- The items of all `dyn_trait` attributes, one after the other.
abbrev pub dyn_metas : List Attribute → List MetaItem
dyn_metas [] = []
dyn_metas (dyn_trait_attribute items ∷ rest) = items ++ dyn_metas rest
dyn_metas (other_attribute s ∷ rest) = dyn_metas rest

-- The attributes of others.
abbrev pub other_attributes : List Attribute → List Attribute
other_attributes [] = []
other_attributes (dyn_trait_attribute items ∷ rest) = other_attributes rest
other_attributes (other_attribute s ∷ rest) = other_attribute s ∷ other_attributes rest

-- The last storage that is named, if one is.
abbrev pub last_storage : Option SynPath → List MetaItem → Option SynPath
last_storage found [] = found
last_storage found (storage_item p ∷ items) = last_storage (some p) items
last_storage found (maybe_sync_item ∷ items) = last_storage found items
last_storage found (unknown_item i ∷ items) = last_storage found items
last_storage found (unreadable_item e ∷ items) = last_storage found items

abbrev pub any_maybe_sync : List MetaItem → Bool
any_maybe_sync [] = false
any_maybe_sync (storage_item p ∷ items) = any_maybe_sync items
any_maybe_sync (maybe_sync_item ∷ items) = true
any_maybe_sync (unknown_item i ∷ items) = any_maybe_sync items
any_maybe_sync (unreadable_item e ∷ items) = any_maybe_sync items

or_true : (b : Bool) → (b || true) ≡ true
or_true true = refl
or_true false = refl

or_false : (b : Bool) → (b || false) ≡ b
or_false true = refl
or_false false = refl

or_assoc : (a b c : Bool) → ((a || b) || c) ≡ (a || (b || c))
or_assoc true b c = refl
or_assoc false b c = refl

last_storage-append :
    (found : Option SynPath) (xs ys : List MetaItem)
    → last_storage found (xs ++ ys) ≡ last_storage (last_storage found xs) ys
last_storage-append found [] ys = refl
last_storage-append found (storage_item p ∷ xs) ys = last_storage-append (some p) xs ys
last_storage-append found (maybe_sync_item ∷ xs) ys = last_storage-append found xs ys
last_storage-append found (unknown_item i ∷ xs) ys = last_storage-append found xs ys
last_storage-append found (unreadable_item e ∷ xs) ys = last_storage-append found xs ys

any_maybe_sync-append :
    (xs ys : List MetaItem) → any_maybe_sync (xs ++ ys) ≡ (any_maybe_sync xs || any_maybe_sync ys)
any_maybe_sync-append [] ys = refl
any_maybe_sync-append (storage_item p ∷ xs) ys = any_maybe_sync-append xs ys
any_maybe_sync-append (maybe_sync_item ∷ xs) ys = refl
any_maybe_sync-append (unknown_item i ∷ xs) ys = any_maybe_sync-append xs ys
any_maybe_sync-append (unreadable_item e ∷ xs) ys = any_maybe_sync-append xs ys

-- What a run over items makes of the attributes that it starts with.
Reads : MethodAttrs → List MetaItem → MethodAttrs → Type 0
Reads attrs items out =
    (out.storage ≡ last_storage attrs.storage items)
    × (out.maybe_sync ≡ (attrs.maybe_sync || any_maybe_sync items))

parse_nested_meta-Reads :
    (attrs : MethodAttrs) (items : List MetaItem) (out : MethodAttrs)
    → parse_nested_meta attrs items ≡ success out
    → Reads attrs items out
unfolding parse_nested_meta Reads
parse_nested_meta-Reads attrs [] out h =
    subst (Reads attrs []) (success-injective h) (refl, sym (or_false attrs.maybe_sync))
parse_nested_meta-Reads attrs (storage_item p ∷ items) out h =
    parse_nested_meta-Reads record attrs { storage = some p } items out h
parse_nested_meta-Reads attrs (maybe_sync_item ∷ items) out h =
    let (storage, maybe_sync) =
      parse_nested_meta-Reads record attrs { maybe_sync = true } items out h in
    (storage, maybe_sync ∙ sym (or_true attrs.maybe_sync))
parse_nested_meta-Reads attrs (unknown_item i ∷ items) out h = cc
parse_nested_meta-Reads attrs (unreadable_item e ∷ items) out h = cc

Reads-append :
    (a b c : MethodAttrs) (xs ys : List MetaItem)
    → Reads a xs b
    → Reads b ys c
    → Reads a (xs ++ ys) c
unfolding Reads
Reads-append a b c xs ys (s1, m1) (s2, m2) = (
  s2 ∙ ap (λ s. last_storage s ys) s1 ∙ sym (last_storage-append a.storage xs ys),
  m2
      ∙ ap (λ m. m || any_maybe_sync ys) m1
      ∙ or_assoc a.maybe_sync (any_maybe_sync xs) (any_maybe_sync ys)
      ∙ ap (λ m. a.maybe_sync || m) (sym (any_maybe_sync-append xs ys)),
)

-- What a run over the attributes gives: what it read, and the attributes that stay.
Splits : Bool → MethodAttrs → List Attribute → MethodAttrs × List Attribute → Type 0
Splits rpit start attrs out =
    Reads start (dyn_metas attrs) out.0
    × (out.1 ≡ other_attributes attrs)
    × (rpit ≡ false → out.1 ≡ attrs)

parse_attributes-Splits :
    (rpit : Bool) (start : MethodAttrs) (attrs : List Attribute)
    (out : MethodAttrs × List Attribute)
    → parse_attributes rpit start attrs ≡ success out
    → Splits rpit start attrs out
unfolding parse_attributes Splits Reads
parse_attributes-Splits rpit start [] out h =
    subst (Splits rpit start []) (success-injective h)
      ((refl, sym (or_false start.maybe_sync)), refl, λ no. refl)
parse_attributes-Splits rpit start (other_attribute s ∷ attrs) out h =
    let (rest, eq1, eq2) = success-bind (parse_attributes rpit start attrs) _ _ h in
    let (reads, others, kept) = parse_attributes-Splits rpit start attrs rest eq1 in
    subst (Splits rpit start (other_attribute s ∷ attrs)) (success-injective eq2) (
      reads,
      ap (λ xs. other_attribute s ∷ xs) others,
      λ no. ap (λ xs. other_attribute s ∷ xs) (kept no),
    )
parse_attributes-Splits true start (dyn_trait_attribute items ∷ attrs) out h =
    let (next, eq1, eq2) = success-bind (parse_nested_meta start items) _ _ h in
    let (reads, others, kept) = parse_attributes-Splits true next attrs out eq2 in
    (
      Reads-append start next out.0 items (dyn_metas attrs)
          (parse_nested_meta-Reads start items next eq1) reads,
      others,
      λ no. cc,
    )
parse_attributes-Splits false start (dyn_trait_attribute items ∷ attrs) out h = cc

-- When the attributes of a method are accepted, the storage is the last one that any of its
-- `dyn_trait` attributes names, and `maybe_sync` is set exactly if one of them says so. The method
-- loses these attributes and is otherwise unchanged. If it returns no `impl Trait` it had none.
pub parse_attrs_lem :
    (method : TraitItemFn) (out : MethodAttrs × TraitItemFn)
    → parse_attrs method ≡ success out
    → ((out.0).storage ≡ last_storage none (dyn_metas method.attrs))
      × ((out.0).maybe_sync ≡ any_maybe_sync (dyn_metas method.attrs))
      × (out.1 ≡ record method { attrs = other_attributes method.attrs })
      × (has_rpit method.sig ≡ false → out.1 ≡ method)
unfolding parse_attrs Splits Reads default_attrs
parse_attrs_lem method out h =
    let (parsed, eq1, eq2) =
      success-bind (parse_attributes (has_rpit method.sig) default_attrs method.attrs) _ _ h in
    let ((storage, maybe_sync), others, kept) = parse_attributes-Splits _ _ _ parsed eq1 in
    let result = success-injective eq2 in
    (
      ap (λ o. (o.0).storage) (sym result) ∙ storage,
      ap (λ o. (o.0).maybe_sync) (sym result) ∙ maybe_sync,
      ap (λ o. o.1) (sym result) ∙ ap (λ as1. record method { attrs = as1 }) others,
      λ no. ap (λ o. o.1) (sym result) ∙ ap (λ as1. record method { attrs = as1 }) (kept no),
    )

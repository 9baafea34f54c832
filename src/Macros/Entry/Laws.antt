-- ===== src/Macros/Entry/Laws.antt =====
-- macros/src/lib.rs: what an attribute makes of its tokens, and `dyn_object` in particular.
use dyn_utils.Prelude.{Option, none, some, ◌≡◌, refl, ap, ◌∙◌, ◌⊎◌, inl, inr, Option-cases}
use dyn_utils.Macros.Syntax.{ItemTrait, MacroError, Result, failure, success, ◌>>=◌}
use dyn_utils.Macros.DynObject.{DynObjectMeta, DynObjectOutput, dyn_object_impl}
use dyn_utils.Macros.DynObject.Laws.{ForMethods, fn_items}
use dyn_utils.Macros.DynObject.Outcome
use dyn_utils.Macros.DynObject.Outcome.{dyn_object_impl_cases}
use dyn_utils.Macros.Entry.{
  ArgTokens, MacroArgs, crate_name, dyn_object, dyn_object_args, macro_impl, parse_args,
  unwrap_or_else,
}
use dyn_utils.Macros.Agrees.{or_else}
use dyn_utils.Macros.Entry.ObjectOptions
use dyn_utils.Macros.Entry.ObjectOptions.{last_values, parse_args-DynObjectOps}

module _ {Tokens Item Args Meta Output : Type 0} ⦃margs : MacroArgs Args Meta⦄
    (read_item : Tokens → Result Item) (read_args : Tokens → ArgTokens Meta)
    (quote : Output → Tokens) (to_compile_error : MacroError → Tokens)
    (impl_fn : Item → Args → Result Output) (args : Tokens) where
  after_args : Item → Result Args → Tokens
  after_args x r = elim r [
    | failure err ↦ to_compile_error err
    | success parsed_args ↦
        unwrap_or_else (impl_fn x parsed_args >>= λ output. success (quote output)) to_compile_error
  ]

  after_args_lem :
      (x : Item) (r : Result Args)
      → after_args x r
        ≡ unwrap_or_else
            (r >>= λ a. impl_fn x a >>= λ output. success (quote output))
            to_compile_error
  unfolding after_args
  after_args_lem x (success a) = refl
  after_args_lem x (failure e) = refl

  -- Over an item that is read, the expansion is the output of the arguments and then of the item.
  pub macro_impl_lem :
      (item : Tokens) (x : Item)
      → read_item item ≡ success x
      → macro_impl read_item read_args quote to_compile_error impl_fn item args
        ≡ unwrap_or_else
            (parse_args margs.default (read_args args).metas (read_args args).trailing_comma
              >>= λ a. impl_fn x a >>= λ output. success (quote output))
            to_compile_error
  unfolding macro_impl after_args
  macro_impl_lem item x reads =
      ap
        (λ r. elim r as (λ r. Tokens) [
          | failure err ↦ to_compile_error err
          | success y ↦
              after_args y
                (parse_args margs.default (read_args args).metas (read_args args).trailing_comma)
        ])
        reads
      ∙ after_args_lem x _

-- What is wrong with the first of the options and then of the items that has something wrong.
abbrev pub first_error : ArgTokens DynObjectMeta → ItemTrait → Option MacroError
first_error tokens trait =
    or_else (ObjectOptions.first_error tokens.metas tokens.trailing_comma)
      (Outcome.first_error trait.items)

module _ {Tokens : Type 0} (to_compile_error : MacroError → Tokens)
    (read_item : Tokens → Result ItemTrait) (read_args : Tokens → ArgTokens DynObjectMeta)
    (quote : DynObjectOutput → Tokens) (args item : Tokens) (trait : ItemTrait)
    (reads : read_item item ≡ success trait) where
  -- An expansion of `dyn_object` over a trait ends in one of two ways. If nothing is wrong with its
  -- options and with the items of the trait, it is what `dyn_object_impl` writes with the last value
  -- of each option, which is complete for every method; else it is the compile error for what is
  -- wrong with the first, the options before the items.
  pub dyn_object_cases :
      ((first_error (read_args args) trait ≡ none)
        × (out : DynObjectOutput) × (dyn_object_impl crate_name trait
              (last_values (read_args args).metas)
            ≡ success out)
        × ForMethods (fn_items trait.items) out
        × (dyn_object to_compile_error read_item read_args quote args item ≡ quote out))
      ⊎ ((e : MacroError) × (first_error (read_args args) trait ≡ some e)
          × (dyn_object to_compile_error read_item read_args quote args item ≡ to_compile_error e))
  unfolding dyn_object dyn_object_args
  dyn_object_cases =
      let tokens = read_args args in
      let options_error = ObjectOptions.first_error tokens.metas tokens.trailing_comma in
      rw
        (
          macro_impl_lem read_item read_args quote to_compile_error (dyn_object_impl crate_name)
              args item trait reads,
          parse_args-DynObjectOps tokens.metas tokens.trailing_comma,
        )
        (elim (Option-cases options_error) [
          | inr (e, bad) ↦ rw bad (inr (e, refl, refl))
          | inl good ↦
              rw good (elim (dyn_object_impl_cases crate_name trait (last_values tokens.metas)) [
                | inl (none_wrong, out, made, all) ↦
                    rw (none_wrong, made) (inl (refl, out, refl, all, refl))
                | inr (e, wrong, failed) ↦ rw (wrong, failed) (inr (e, refl, refl))
              ])
        ])

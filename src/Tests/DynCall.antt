-- ===== src/Tests/DynCall.antt =====
-- Methods called on an object of a trait that goes through both attributes.
use text.Mathlib.Text.{◌==◌ as str_eq}
use dyn_utils.Prelude.{ℕ, true, false, none, some, ◌≡◌, refl, if◌then◌else◌, [], ◌∷◌}
use dyn_utils.Memory.{Bytes, ok, panicked, pure, raise, ◌>>=◌}
use dyn_utils.Memory.Returns.{Returns}
use dyn_utils.Storage.RawOrBox.{RawOrBox, raw_or_box_storage}
use dyn_utils.Object
use dyn_utils.Object.{DynObject}
use dyn_utils.Object.Laws.{destroyed}
use dyn_utils.Future.{ready, pending, FutureVtable, future_vtable}
use dyn_utils.Future.Laws.{answers, final}
use dyn_utils.Macros.Syntax.{
  ItemTrait, Signature, TraitItemFn, dyn_trait_attribute, fn_item, maybe_sync_item, no_arguments,
  path_type, segment, success,
}
use dyn_utils.Macros.Utils.{
  future_output, has_dyn_trait_receiver, is_dispatchable, is_lifetime_param, is_not_generic,
  last_segment, return_type,
}
use dyn_utils.Macros.Sync.{sync_fn}
use dyn_utils.Macros.DynTrait.{
  DynTraitOutput, add_method, dyn_trait_impl, extract_dyn_trait_attrs, parse_method,
  parse_item as parse_trait_item, parse_items as parse_trait_items,
}
use dyn_utils.Macros.DynTrait.Attrs.{
  default_attrs, has_rpit, impl_bounds, parse_attributes, parse_attrs, parse_nested_meta,
}
use dyn_utils.Macros.DynTrait.Method.{desugar_async, new_method, sync_method}
use dyn_utils.Macros.DynObject.{DynObjectOutput, dyn_object_impl}
use dyn_utils.Macros.Composition.{dyn_object_impl-dyn_trait_impl}
use dyn_utils.Macros.DynObject.Vtable.{new_receiver}
use dyn_utils.Macros.DynCall.{call_dyn}
use dyn_utils.Macros.DynCall.Life.{call_dyn-life, poll_and_drop, use_object}
use dyn_utils.Macros.DynCall.Immediate.{call_dyn-maybe_sync, poll_once, use_maybe_sync}
use dyn_utils.Macros.Meaning.{Env, concrete, output}
use dyn_utils.Tests.Inputs.{bump, byte, variant, word, word_bytes}
use dyn_utils.Tests.Objects.{law, IsPlace-64, word_object, word_heap, word_stored}
use dyn_utils.Tests.Futures.{countdown_future}
use dyn_utils.Tests.Macros.{
  casing, crate_path, object_opts, ref_self, sink, trait_opts, no_trait_output, value_or,
  value_or_lem,
}

-- `async fn peek(&self) -> u8`, and `async fn look(&self) -> u8`, which is `maybe_sync`
abbrev peek_sig : Signature
peek_sig = record {
  is_async = true;
  is_unsafe = false;
  ident = "peek";
  generics = [];
  predicates = [];
  receiver = some ref_self;
  inputs = [];
  output = some (path_type (segment "u8" no_arguments));
}

abbrev peek : TraitItemFn
peek = record { attrs = []; sig = peek_sig; default = none }

abbrev look : TraitItemFn
look = record {
  attrs = dyn_trait_attribute (maybe_sync_item ∷ []) ∷ [];
  sig = record peek_sig { ident = "look" };
  default = none;
}

abbrev viewer : ItemTrait
viewer = record sink { attrs = []; ident = "Viewer"; items = fn_item look ∷ fn_item peek ∷ [] }

abbrev written_viewer : DynTraitOutput
written_viewer = value_or (dyn_trait_impl casing crate_path viewer trait_opts) no_trait_output

written_viewer-success : dyn_trait_impl casing crate_path viewer trait_opts ≡ success written_viewer
unfolding dyn_trait_impl extract_dyn_trait_attrs last_segment parse_trait_items parse_trait_item
    is_not_generic is_dispatchable has_dyn_trait_receiver is_lifetime_param parse_method parse_attrs
    parse_attributes has_rpit default_attrs impl_bounds return_type parse_nested_meta new_method
    desugar_async add_method sync_method future_output
written_viewer-success = value_or_lem _ no_trait_output refl

-- `dyn_object` accepts the trait that is written.
abbrev accepted :
    (dyn : DynObjectOutput) × (dyn_object_impl crate_path written_viewer.dyn_trait object_opts
      ≡ success dyn)
accepted =
    let (_, dyn, made, _) =
      dyn_object_impl-dyn_trait_impl casing crate_path crate_path viewer trait_opts object_opts
        written_viewer written_viewer-success refl in
    (dyn, made)

-- `peek` is ready at its second poll and `look` at its first, which also has a synchronous body.
abbrev env : Bytes → Env (DynObject RawOrBox (FutureVtable RawOrBox ℕ ℕ)) ℕ
env v = record {
  const = λ i. true;
  method = λ name args.
      if str_eq name "peek"
      then pure (concrete (1 ∷ []))
      else if str_eq name "look"
      then pure (concrete (0 ∷ []))
      else pure (output 7);
  new_object =
      Object.new (raw_or_box_storage bump variant)
        (future_vtable (raw_or_box_storage bump variant) byte countdown_future) byte;
}

call_dyn-life_example :
    ((call_dyn
            (raw_or_box_storage bump variant)
            word
            written_viewer
            accepted.0
            env
            "peek"
            64
            word_object.storage
          >>= use_object (poll_and_drop (raw_or_box_storage bump variant) 64 (5 ∷ 6 ∷ [])))
        word_heap
      ≡ ok (word_object.storage, pending ∷ ready 6 ∷ []) (destroyed byte (0 ∷ []) word_heap))
    × (law word).Stores word_bytes word_object.storage (destroyed byte (0 ∷ []) word_heap).blocks
unfolding has_rpit new_receiver answers final is_dispatchable has_dyn_trait_receiver
    is_lifetime_param return_type
call_dyn-life_example =
    call_dyn-life (law word) (law byte) countdown_future casing crate_path crate_path viewer
      trait_opts object_opts written_viewer accepted.0 written_viewer-success accepted.1 env peek
      word_bytes (1 ∷ []) word_object.storage word_heap 64 64 (5 ∷ 6 ∷ []) refl refl refl refl refl
      refl refl word_stored IsPlace-64 IsPlace-64

-- The implementation has no synchronous body: its constant is not set and its hidden method panics,
-- as the default body that is written does.
abbrev async_env : Bytes → Env (DynObject RawOrBox (FutureVtable RawOrBox ℕ ℕ)) ℕ
async_env v = record (env v) {
  const = λ i. false;
  method = λ name args.
      if str_eq name "look"
      then (pure (0 ∷ []) >>= λ f. pure (concrete f))
      else (raise panicked >>= λ res. pure (output res));
}

call_dyn-maybe_sync_example :
    Returns
      (λ r k. r ≡ (word_object.storage, ready 7))
      ((call_dyn
            (raw_or_box_storage bump variant)
            word
            written_viewer
            accepted.0
            async_env
            "look"
            64
            word_object.storage
          >>= use_maybe_sync (poll_once 64 7))
        word_heap)
unfolding new_receiver sync_fn is_dispatchable has_dyn_trait_receiver is_lifetime_param
call_dyn-maybe_sync_example =
    call_dyn-maybe_sync (law word) (law byte) countdown_future casing crate_path crate_path viewer
      trait_opts object_opts written_viewer accepted.0 written_viewer-success accepted.1 async_env
      look false (raise panicked) (pure (0 ∷ [])) word_bytes (0 ∷ []) 9 word_object.storage
      word_heap 64 64 7 refl refl refl refl refl refl (λ e. cc) (λ e. refl) refl refl word_stored
      IsPlace-64 IsPlace-64

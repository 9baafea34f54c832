-- ===== src/Tests/Generated.antt =====
-- What the macros write, run on concrete values.
use text.Mathlib.Text.{◌==◌ as str_eq}
use dyn_utils.Prelude.{ℕ, true, none, some, ◌≡◌, ◌⊎◌, refl, if◌then◌else◌, [], ◌∷◌}
use dyn_utils.Memory.{Bytes, pure, ◌>>=◌}
use dyn_utils.Memory.Returns.{Returns}
use dyn_utils.Storage.RawOrBox.{RawOrBox, raw_or_box_storage}
use dyn_utils.Object
use dyn_utils.Object.{DynObject}
use dyn_utils.Object.Call.Laws.{Called}
use dyn_utils.Future.{FutureVtable, future_vtable}
use dyn_utils.MaybeSync.{maybe_sync_block}
use dyn_utils.Macros.Syntax.{
  Exprs, Ident, MacroError, failure, no_arguments, no_bounds, segment, success, trait_bound,
}
use dyn_utils.Macros.Utils.{all, fn_args, skip_one}
use dyn_utils.Macros.Sync.{sync_fn}
use dyn_utils.Macros.DynTrait.Method.{DynMethod, maybe_sync_impl}
use dyn_utils.Macros.DynTrait.Compatible.{compatible, dyn_trait_impl-compatible}
use dyn_utils.Macros.DynTrait.Header.{is_trait_header, quote_header}
use dyn_utils.Macros.DynObject.{DynObjectOutput, dyn_object_impl}
use dyn_utils.Macros.DynObject.Laws.{ForMethods, fn_items}
use dyn_utils.Macros.DynObject.Vtable.{VtableReceiver, by_mut, by_pinned, by_ref, new_receiver}
use dyn_utils.Macros.DynObject.Outcome.{dyn_object_impl_cases, first_error}
use dyn_utils.Macros.Composition.{dyn_object_impl-dyn_trait_impl}
use dyn_utils.Macros.Dispatch.{dispatch}
use dyn_utils.Macros.Dispatch.Laws.{LeavesValue, dispatch_lem}
use dyn_utils.Macros.Meaning.{Env, concrete, eval, maybe_sync, output}
use dyn_utils.Macros.Meaning.Laws.{eval-maybe_sync_impl}
use dyn_utils.Tests.Inputs.{bump, empty_heap, byte, word, word_bytes, variant}
use dyn_utils.Tests.Objects.{law, IsPlace-64, word_object, word_heap, word_stored, other_bytes}
use dyn_utils.Tests.Futures.{countdown_future}
use dyn_utils.Tests.Macros.{
  casing, crate_path, push, sink, trait_opts, written_trait, written_trait-success, object_opts,
  written_object, written_object-success, push_sig,
}

dyn_trait_impl-compatible_example : all compatible written_trait.dyn_trait.items ≡ true
dyn_trait_impl-compatible_example =
    dyn_trait_impl-compatible casing crate_path sink trait_opts written_trait written_trait-success

dyn_object_impl_cases_example :
    ((first_error sink.items ≡ none)
      × (out : DynObjectOutput) × (dyn_object_impl crate_path sink object_opts ≡ success out)
      × ForMethods (fn_items sink.items) out)
    ⊎ ((e : MacroError) × (first_error sink.items ≡ some e)
        × (dyn_object_impl crate_path sink object_opts ≡ failure e))
dyn_object_impl_cases_example = dyn_object_impl_cases crate_path sink object_opts

dyn_object_impl-dyn_trait_impl_example :
    (is_trait_header (quote_header written_trait.dyn_trait) ≡ true)
    × (object : DynObjectOutput) × (dyn_object_impl crate_path written_trait.dyn_trait object_opts
        ≡ success object)
    × ForMethods (fn_items written_trait.dyn_trait.items) object
dyn_object_impl-dyn_trait_impl_example =
    dyn_object_impl-dyn_trait_impl casing crate_path crate_path sink trait_opts object_opts
      written_trait written_trait-success refl

-- `push` overwrites the word and replies with what was there; other methods do not count.
abbrev methods : Ident → Exprs → Bytes → Bytes × Bytes
methods name args v = (other_bytes, v)

push-LeavesValue :
    (r : VtableReceiver)
    → new_receiver push ≡ some r
    → LeavesValue r (methods "push" (skip_one (fn_args push_sig))) word_bytes
unfolding new_receiver
push-LeavesValue by_ref h = cc
push-LeavesValue by_mut h = tt
push-LeavesValue by_pinned h = tt

dispatch_lem_example :
    Returns
      (Called
        (law word)
        (methods "push" (skip_one (fn_args push_sig)))
        word_bytes
        word_object.storage
        word_heap)
      (dispatch
        (raw_or_box_storage bump variant)
        word
        methods
        written_object
        "push"
        64
        word_object.storage
        word_heap)
dispatch_lem_example =
    dispatch_lem (law word) crate_path sink object_opts written_object methods "push" push
      word_bytes word_object.storage word_heap 64 written_object-success refl word_stored IsPlace-64
      refl push-LeavesValue

-- `push` with an output that is ready, in both ways.
abbrev push_method : DynMethod
push_method = record {
  orig_sig = push_sig;
  crate_ = crate_path;
  dyn_method = push;
  rpit = some (trait_bound (segment "Future" no_arguments) no_bounds);
  storage = some "__StoragePush";
}

abbrev env : Env (DynObject RawOrBox (FutureVtable RawOrBox ℕ ℕ)) ℕ
env = record {
  const = λ i. true;
  method = λ name args. if str_eq name "push" then pure (concrete (0 ∷ [])) else pure (output 7);
  new_object =
      Object.new (raw_or_box_storage bump variant)
        (future_vtable (raw_or_box_storage bump variant) byte countdown_future) byte;
}

eval-maybe_sync_impl_example :
    eval env (maybe_sync_impl casing push_method).block empty_heap
    ≡ (maybe_sync_block true (pure 7) (pure (0 ∷ []) >>= λ v. env.new_object v) >>= λ x.
          pure (maybe_sync x))
        empty_heap
unfolding sync_fn
eval-maybe_sync_impl_example =
    eval-maybe_sync_impl casing env push_method (pure 7) (pure (0 ∷ [])) refl refl empty_heap

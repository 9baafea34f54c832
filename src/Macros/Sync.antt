-- ===== src/Macros/Sync.antt =====
-- macros/src/sync.rs: the attribute `sync`, and the names that it shares with `dyn_trait`.
use Prim.Native.String.{◌++◌ as str_append}
use dyn_utils.Prelude.{String, Bool, true, false, if◌then◌else◌}
use dyn_utils.Macros.Syntax.{
  Ident, ImplItemFn, Result, Signature, TraitItemConst, failure, success, sync_not_async,
}

-- The functions on text that the macros call: `heck`'s `to_pascal_case`, `to_uppercase`, and the
-- replacement of `{}` in a template; and whether a text is an identifier.
pub record Casing : Type 0 where
  pub to_pascal_case : Ident → Ident
  pub to_uppercase : Ident → Ident
  pub fill_template : String → Ident → Ident
  pub is_ident : String → Bool

unfoldable pub sync_fn : Signature → Ident
sync_fn sig = str_append sig.ident "_sync"

unfoldable pub is_sync_const : Casing → Signature → Ident
is_sync_const casing sig = str_append (casing.to_uppercase sig.ident) "_IS_SYNC"

-- The items of an implementation that `sync` writes.
pub record SyncItems : Type 0 where
  pub method : ImplItemFn
  pub sync_method : ImplItemFn
  pub is_sync : TraitItemConst

abbrev pub sync_items : Casing → ImplItemFn → SyncItems
sync_items casing method = record {
  method = method;
  sync_method = record method {
    sig = record method.sig { is_async = false; ident = sync_fn method.sig };
  };
  is_sync = record { ident = is_sync_const casing method.sig; value = true };
}

unfoldable pub sync_impl : Casing → ImplItemFn → Result SyncItems
sync_impl casing method =
    if method.sig.is_async then success (sync_items casing method) else failure sync_not_async

-- ===== src/Macros/Meaning/Laws.antt =====
-- The bodies that `dyn_trait` writes, against the functions of the crate that they call.
use dyn_utils.Prelude.{Bool, true, false, if◌then◌else◌, ◌≡◌, refl}
use dyn_utils.Memory.{Bytes, Heap, Outcome, ok, fault, Exec, and_then, pure, ◌>>=◌}
use dyn_utils.MaybeSync.{MaybeSync, sync, async, maybe_sync_block}
use dyn_utils.Macros.Syntax.{Arguments, Expr, Ident, SynPath, no_arguments, prefixed, segment}
use dyn_utils.Macros.Utils.{fn_args, impl_method, is_some, path_append}
use dyn_utils.Macros.Sync.{Casing, is_sync_const, sync_fn}
use dyn_utils.Macros.DynTrait.Method.{
  DynMethod, dyn_call, forward_method, maybe_sync_impl, new_object,
}
use dyn_utils.Macros.Meaning.{
  Env, Value, call_path, concrete, eval, last_two, maybe_sync, object, output, to_async, to_object,
  to_sync,
}

last_two-path_append :
    (p : SynPath) (i j : Ident) (xs ys : Arguments)
    → last_two (path_append (path_append p i xs) j ys) ≡ (i, j)
unfolding last_two
last_two-path_append (segment k zs) i j xs ys = refl
last_two-path_append (prefixed k zs (segment l ws)) i j xs ys = refl
last_two-path_append (prefixed k zs (prefixed l ws p)) i j xs ys =
    last_two-path_append (prefixed l ws p) i j xs ys

module _ {F Out : Type 0} (casing : Casing) (env : Env F Out) (m : DynMethod) where
  -- The synchronous call is made at the name of the hidden method and the asynchronous one at the
  -- method's own, both with the method's own arguments.
  abbrev pub SyncCall : Exec Out → Type 0
  SyncCall call_sync =
      env.method (sync_fn m.orig_sig) (fn_args m.orig_sig)
      ≡ (call_sync >>= λ res. pure (output res))

  abbrev pub AsyncCall : Exec Bytes → Type 0
  AsyncCall call_async =
      env.method m.orig_sig.ident (fn_args m.orig_sig) ≡ (call_async >>= λ v. pure (concrete v))

  sync_path :
      (r : Outcome Out)
      → and_then (and_then r (λ res. pure {A = Value F Out} (output res))) to_sync
        ≡ and_then
            (and_then r (λ res. pure {A = MaybeSync F Out} (sync res)))
            (λ x. pure (maybe_sync x))
  sync_path (ok res h) = refl
  sync_path (fault f) = refl

  made :
      (r : Outcome F)
      → and_then (and_then r (λ fut. pure {A = Value F Out} (object fut))) to_async
        ≡ and_then
            (and_then r (λ fut. pure {A = MaybeSync F Out} (async fut)))
            (λ x. pure (maybe_sync x))
  made (ok fut h) = refl
  made (fault f) = refl

  async_path :
      (r : Outcome Bytes)
      → and_then
          (and_then
            (and_then r (λ v. pure {A = Value F Out} (concrete v)))
            (to_object env.new_object))
          to_async
        ≡ and_then
            (and_then
              (and_then r (λ v. env.new_object v))
              (λ fut. pure {A = MaybeSync F Out} (async fut)))
            (λ x. pure (maybe_sync x))
  async_path (ok v h) = made (env.new_object v h)
  async_path (fault f) = refl

  paths :
      (b : Bool) (call_sync : Exec Out) (call_async : Exec Bytes) (h : Heap)
      → (if b
            then (call_sync >>= λ res. pure {A = Value F Out} (output res)) >>= to_sync
            else ((call_async >>= λ v. pure {A = Value F Out} (concrete v))
                >>= to_object env.new_object)
              >>= to_async)
          h
        ≡ (maybe_sync_block b call_sync (call_async >>= λ v. env.new_object v) >>= λ x.
              pure (maybe_sync x))
            h
  unfolding maybe_sync_block
  paths true call_sync call_async h = sync_path (call_sync h)
  paths false call_sync call_async h = async_path (call_async h)

  -- The body that `dyn_trait` writes for a `maybe_sync` method is the one of the crate: it tests the
  -- hidden constant of the method, and makes one of the two calls, with the method's own arguments.
  pub eval-maybe_sync_impl :
      (call_sync : Exec Out) (call_async : Exec Bytes)
      → SyncCall call_sync
      → AsyncCall call_async
      → (h : Heap)
      → eval env (maybe_sync_impl casing m).block h
        ≡ (maybe_sync_block
                (env.const (is_sync_const casing m.orig_sig))
                call_sync
                (call_async >>= λ v. env.new_object v)
              >>= λ x. pure (maybe_sync x))
            h
  unfolding maybe_sync_impl impl_method eval last_two call_path maybe_sync_block
  eval-maybe_sync_impl call_sync call_async synced asynced h =
      rw
        (
          last_two-path_append m.crate_ "MaybeSync" "Sync" no_arguments no_arguments,
          last_two-path_append m.crate_ "MaybeSync" "Async" no_arguments no_arguments,
          last_two-path_append m.crate_ "DynObject" "new" no_arguments no_arguments,
          synced,
          asynced,
        )
        (paths (env.const (is_sync_const casing m.orig_sig)) call_sync call_async h)

  forwarded :
      (b : Bool) (call : Exec (Value F Out)) (e : Expr)
      → eval env e ≡ call
      → eval env (if b then new_object m.crate_ e else e)
        ≡ (if b then call >>= to_object env.new_object else call)
  unfolding eval call_path
  forwarded true call e h =
      rw (last_two-path_append m.crate_ "DynObject" "new" no_arguments no_arguments, h) refl
  forwarded false call e h = h

  -- The body that `dyn_trait` writes for another method makes one call, of the method of the same
  -- name with the method's own arguments. If the method returns an `impl Trait`, the body puts the
  -- value that the call returns into an object, else it returns that value.
  pub eval-forward_method : eval env (forward_method m).block ≡ (
      if is_some m.rpit
      then env.method m.orig_sig.ident (fn_args m.orig_sig) >>= to_object env.new_object
      else env.method m.orig_sig.ident (fn_args m.orig_sig))
  unfolding forward_method impl_method eval call_path last_two
  eval-forward_method =
      forwarded (is_some m.rpit) _ (dyn_call m.orig_sig.ident (fn_args m.orig_sig)) refl

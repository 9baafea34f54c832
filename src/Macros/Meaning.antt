-- ===== src/Macros/Meaning.antt =====
-- What the bodies that `dyn_trait` writes do when they run.
pub mod Laws
pub mod Paths
use text.Mathlib.Text.{◌==◌ as str_eq}
use dyn_utils.Prelude.{Bool, true, false, ◌&&◌, Option, none, some, if◌then◌else◌}
use dyn_utils.Memory.{Bytes, Exec, undefined_behaviour, pure, raise, ◌>>=◌}
use dyn_utils.MaybeSync.{MaybeSync, sync, async}
use dyn_utils.Macros.Syntax.{
  Expr, Exprs, Ident, SynPath, call_expr, if_expr, more_exprs, no_exprs, path_expr, prefixed,
  segment,
}

-- The values that meet in such a body: a constant, the output of a method, the value that a method
-- returns as `impl Trait`, an object, and a `MaybeSync` of an object.
pub data Value (F Out : Type 0) : Type 0 where
  boolean : Bool → Value F Out
  output : Out → Value F Out
  concrete : Bytes → Value F Out
  object : F → Value F Out
  maybe_sync : MaybeSync F Out → Value F Out

-- What a body finds around it: the constants and the methods of `__Dyn`, by name and arguments, and
-- the construction of an object from a value.
pub record Env (F Out : Type 0) : Type 0 where
  pub const : Ident → Bool
  pub method : Ident → Exprs → Exec (Value F Out)
  pub new_object : Bytes → Exec F

-- The last two segments of a path, such as `DynObject` and `new`.
unfoldable pub last_two : SynPath → Ident × Ident
last_two (segment i args) = ("", i)
last_two (prefixed i args (segment j args')) = (i, j)
last_two (prefixed i args (prefixed j args' p)) = last_two (prefixed j args' p)

module _ {F Out : Type 0} where
  abbrev pub to_sync : Value F Out → Exec (Value F Out)
  to_sync (output res) = pure (maybe_sync (sync res))
  to_sync _ = raise undefined_behaviour

  abbrev pub to_async : Value F Out → Exec (Value F Out)
  to_async (object fut) = pure (maybe_sync (async fut))
  to_async _ = raise undefined_behaviour

  abbrev pub to_object : (Bytes → Exec F) → Value F Out → Exec (Value F Out)
  to_object new_object (concrete v) = do fut ← new_object v; pure (object fut)
  to_object new_object _ = raise undefined_behaviour

  abbrev pub choose : Value F Out → Exec (Value F Out) → Exec (Value F Out) → Exec (Value F Out)
  choose (boolean b) yes' no' = if b then yes' else no'
  choose _ yes' no' = raise undefined_behaviour

  -- A call of a function by its path, of these arguments, the first of which has this value.
  unfoldable pub call_path :
      Env F Out → Ident × Ident → Exprs → Exec (Value F Out) → Exec (Value F Out)
  call_path env (owner, name) args first =
      if str_eq owner "__Dyn"
      then env.method name args
      else if str_eq owner "MaybeSync" && str_eq name "Sync"
      then first >>= to_sync
      else if str_eq owner "MaybeSync" && str_eq name "Async"
      then first >>= to_async
      else if str_eq owner "DynObject" && str_eq name "new"
      then first >>= to_object env.new_object
      else raise undefined_behaviour

  unfoldable mutual
    pub eval : Env F Out → Expr → Exec (Value F Out)
    eval env (path_expr p) = pure (boolean (env.const (last_two p).1))
    eval env (call_expr (path_expr p) args) = call_path env (last_two p) args (eval_first env args)
    eval env (if_expr test body rest) =
        eval env test >>= λ value. choose value (eval env body) (eval env rest)
    eval env _ = raise undefined_behaviour

    pub eval_first : Env F Out → Exprs → Exec (Value F Out)
    eval_first env no_exprs = raise undefined_behaviour
    eval_first env (more_exprs e es) = eval env e

-- ===== src/Any.antt =====
-- The objects of `dyn Any`, `dyn Any + Send` and `dyn Any + Send + Sync`: the macro `any_impl` of
-- src/impls.rs, which src/object.rs calls for each of the three.
pub mod Laws
use dyn_utils.Prelude.{ℕ, ◌≡◌, refl, ◌⊎◌, inl, inr, Bool, Option, none, some, ◌==◌, if◌then◌else◌}
use dyn_utils.Memory.{Bytes, RustType, Layout, layout_of, Exec, pure, ◌>>=◌, ◌>>◌, Ptr, read_ref}
use dyn_utils.Storage.{Storage}
use dyn_utils.Object.{DropFn, drop_in_place_fn, DynTrait, IsVtable, DynObject}

-- `__Vtable`: the type id is a field.
pub record AnyVtable : Type 0 where
  pub drop_fn : Option DropFn
  pub layout : Layout
  pub type_id : ℕ

abbrev pub dyn_any : DynTrait AnyVtable
dyn_any = record { vtable_drop = λ vt. vt.drop_fn; vtable_layout = λ vt. vt.layout }

abbrev pub any_vtable : RustType → AnyVtable
any_vtable T = record { drop_fn = drop_in_place_fn T; layout = layout_of T; type_id = T.type_id }

module _ {S : Type 0} where
  abbrev pub type_id : DynObject S AnyVtable → ℕ
  type_id obj = obj.vtable.type_id

  unfoldable pub is : RustType → DynObject S AnyVtable → Bool
  is T obj = type_id obj == T.type_id

  module _ (st : Storage S) where
    unfoldable pub downcast_ref : RustType → ℕ → DynObject S AnyVtable → Exec (Option Ptr)
    unfolding is
    downcast_ref T self obj =
        if is T obj then (do p ← st.as_ref T self obj.storage; pure (some p)) else pure none

    unfoldable pub downcast_mut : RustType → ℕ → DynObject S AnyVtable → Exec (Option Ptr)
    unfolding is
    downcast_mut T self obj =
        if is T obj then (do p ← st.as_mut T self obj.storage; pure (some p)) else pure none

    -- The value is read out and the storage freed with no run of the destructor, or the object
    -- comes back.
    unfoldable pub downcast :
        RustType → ℕ → DynObject S AnyVtable → Exec (Bytes ⊎ DynObject S AnyVtable)
    unfolding is
    downcast T self obj =
        if is T obj
        then (do
          p ← st.ptr_mut self obj.storage
          v ← read_ref T (st.place self obj.storage) p
          st.drop_in_place obj.storage (layout_of T)
          pure (inl v))
        else pure (inr obj)

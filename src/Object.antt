-- ===== src/Object.antt =====
-- src/object.rs: `DynObject`, a storage beside the vtable of the type that it stores.
pub mod Laws
pub mod Insert
pub mod Call
use dyn_utils.Prelude.{ℕ, ◌≡◌, Bool, Option, none, some, if◌then◌else◌}
use dyn_utils.Memory.{
  Bytes, RustType, Layout, layout_of, Exec, pure, ◌>>=◌, ◌>>◌, log_event, dropped, Ptr, Place,
  read_ref,
}
use dyn_utils.Storage.{Storage, FromBox}

-- `unsafe fn(NonNull<()>)`: the pointer comes with the memory that it may lead into.
abbrev pub DropFn : Type 0
DropFn = Place → Ptr → Exec (Unit {0})

-- `ptr.cast::<T>().drop_in_place()` runs the destructor on the value that is there.
unfoldable pub drop_value : RustType → DropFn
drop_value T place p = do v ← read_ref T place p; log_event (dropped T v)

-- `Vtable::DROP_IN_PLACE_FN`.
unfoldable pub drop_in_place_fn : RustType → Option DropFn
drop_in_place_fn T = if T.needs_drop then some (drop_value T) else none

-- The trait `DynTrait` for a type of vtables.
pub record DynTrait (V : Type 0) : Type 0 where
  pub vtable_drop : V → Option DropFn
  pub vtable_layout : V → Layout

-- The safety contract of the trait `Vtable<T>`.
pub record IsVtable {V : Type 0} (dt : DynTrait V) (T : RustType) (vt : V) : Type 0 where
  pub layout : dt.vtable_layout vt ≡ layout_of T
  pub drop_fn : dt.vtable_drop vt ≡ drop_in_place_fn T

pub record DynObject (S V : Type 0) : Type 0 where
  pub storage : S
  pub vtable : V

module _ {S V : Type 0} (st : Storage S) where
  unfoldable pub new : V → RustType → Bytes → Exec (DynObject S V)
  new vt T object = do s ← st.new T object; pure (record { storage = s; vtable = vt })

  unfoldable pub from_box : FromBox S → V → RustType → ℕ → Exec (DynObject S V)
  from_box fb vt T boxed = do s ← fb.from_box T boxed; pure (record { storage = s; vtable = vt })

  module _ (dt : DynTrait V) where
    -- The destructor in the vtable, if there is one.
    unfoldable pub drop_inner : Option DropFn → ℕ → S → Exec (Unit {0})
    drop_inner none self s = pure tt
    drop_inner (some f) self s = do p ← st.ptr_mut self s; f (st.place self s) p

    -- `Drop::drop` of an object at an address.
    unfoldable pub drop : ℕ → DynObject S V → Exec (Unit {0})
    unfolding drop_inner
    drop self obj = do
      drop_inner (dt.vtable_drop obj.vtable) self obj.storage
      st.drop_in_place obj.storage (dt.vtable_layout obj.vtable)

    -- `Option::insert` drops what was there.
    unfoldable pub drop_old : ℕ → Option (DynObject S V) → Exec (Unit {0})
    drop_old self none = pure tt
    drop_old self (some obj) = drop self obj

    -- The object that fills the option, and the reference to its data.
    unfoldable pub insert :
        V → ℕ → Option (DynObject S V) → RustType → Bytes → Exec (DynObject S V × Ptr)
    unfolding new drop_old
    insert vt self slot T object = do
      obj ← new vt T object
      drop_old self slot
      p ← st.as_mut T self obj.storage
      pure (obj, p)

    -- `insert_pinned` adds a promise of the caller only.
    abbrev pub insert_pinned :
        V → ℕ → Option (DynObject S V) → RustType → Bytes → Exec (DynObject S V × Ptr)
    insert_pinned = insert

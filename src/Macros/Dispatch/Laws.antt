-- ===== src/Macros/Dispatch/Laws.antt =====
-- A call on a `DynObject` is the call of the method on the stored value.
use text.Mathlib.Text.{◌==◌ as str_eq}
use text.Mathlib.TextEquality.{eq_iff}
use mathlib.Core.Option.{map as option_map}
use dyn_utils.Prelude.{
  ℕ, Bool, true, false, Option, none, some, if◌then◌else◌, ◌≡◌, refl, sym, ap, subst, ◌∙◌, List, [],
  ◌∷◌, map, length,
}
use dyn_utils.Memory.{Bytes, RustType, Heap}
use dyn_utils.Memory.Returns.{Returns, returns}
use dyn_utils.Storage.{Storage, IsPlace, IsStorage}
use dyn_utils.Object.Call.Laws.{Called, call_ref_lem, call_mut_lem}
use dyn_utils.Macros.Shared.{and_left, and_right}
use dyn_utils.Macros.Syntax.{
  Exprs, Ident, more_exprs, no_exprs, ItemTrait, SynPath, TraitItemFn, success,
}
use dyn_utils.Macros.Utils.{all, fn_args, is_dispatchable, skip_one}
use dyn_utils.Macros.DynObject.{DynObjectOps, DynObjectOutput, dyn_object_impl}
use dyn_utils.Macros.DynObject.Laws.{dyn_object_impl_lists, fn_items}
use dyn_utils.Macros.DynObject.Pointers.{vtable_fn_pointer-Agree}
use dyn_utils.Macros.DynObject.Vtable.{
  VtableReceiver, accessor_of, by_mut, by_pinned, by_ref, new_receiver, object_method,
  storage_accessor_of, vtable_method,
}
use dyn_utils.Macros.Dispatch.{
  call_found, call_passed, call_method, dispatch, find_object, find_vtable, pass_args, reach,
}

-- The trait's method of that name.
abbrev pub find_fn : Ident → List TraitItemFn → Option TraitItemFn
find_fn name [] = none
find_fn name (m ∷ ms) = if str_eq m.sig.ident name then some m else find_fn name ms

pub option_map-if {ℓ κ} :
    {A : Type ℓ} {B : Type κ} (f : A → B) (b : Bool) (a : A) (o : Option A) (p : Option B)
    → p ≡ option_map f o
    → (if b then some (f a) else p) ≡ option_map f (if b then some a else o)
option_map-if f true a o p h = refl
option_map-if f false a o p h = h

find_object-map :
    (name : Ident) (ms : List TraitItemFn)
    → find_object name (map object_method ms) ≡ option_map object_method (find_fn name ms)
unfolding find_object object_method
find_object-map name [] = refl
find_object-map name (m ∷ ms) =
    option_map-if object_method (str_eq m.sig.ident name) m _ _ (find_object-map name ms)

find_vtable-map :
    (name : Ident) (ms : List TraitItemFn)
    → find_vtable name (map vtable_method ms) ≡ option_map vtable_method (find_fn name ms)
unfolding find_vtable vtable_method
find_vtable-map name [] = refl
find_vtable-map name (m ∷ ms) =
    option_map-if vtable_method (str_eq m.sig.ident name) m _ _ (find_vtable-map name ms)

-- The method that is found has that name, and is one of the list.
found-if :
    (test : TraitItemFn → Bool) (name : Ident) (m found : TraitItemFn) (ms : List TraitItemFn)
    (b : Bool)
    → str_eq m.sig.ident name ≡ b
    → test m ≡ true
    → (find_fn name ms ≡ some found → (found.sig.ident ≡ name) × (test found ≡ true))
    → (if b then some m else find_fn name ms) ≡ some found
    → (found.sig.ident ≡ name) × (test found ≡ true)
found-if test name m found ms true e h k eq =
    let same : m ≡ found = cc in
    subst (λ f. (f.sig.ident ≡ name) × (test f ≡ true)) same ((eq_iff m.sig.ident name).0 e, h)
found-if test name m found ms false e h k eq = k eq

pub find_fn_lem :
    (test : TraitItemFn → Bool) (name : Ident) (found : TraitItemFn) (ms : List TraitItemFn)
    → all test ms ≡ true
    → find_fn name ms ≡ some found
    → (found.sig.ident ≡ name) × (test found ≡ true)
find_fn_lem test name found [] h eq = cc
find_fn_lem test name found (m ∷ ms) h eq =
    found-if test name m found ms (str_eq m.sig.ident name) refl (and_left _ _ h)
      (find_fn_lem test name found ms (and_right _ _ h)) eq

pass_args-same : (es : Exprs) → pass_args es es ≡ some es
unfolding pass_args
pass_args-same no_exprs = refl
pass_args-same (more_exprs e es) = rw (pass_args-same es) refl

-- A method on `&self` leaves the value as it is.
abbrev pub LeavesValue : {A : Type 0} → VtableReceiver → (Bytes → Bytes × A) → Bytes → Type 0
LeavesValue by_ref method v = (method v).0 ≡ v
LeavesValue by_mut method v = Unit
LeavesValue by_pinned method v = Unit

module _ {S A : Type 0} (st : Storage S) (T : RustType) where
  -- A call, once its two functions are found.
  call-found :
      (methods : Ident → Exprs → Bytes → Bytes × A) (out : DynObjectOutput) (name : Ident)
      (m : TraitItemFn) (r : VtableReceiver) (s : S) (h : Heap) (self : ℕ)
      → find_object name out.impl_methods ≡ some (object_method m)
      → find_vtable m.sig.ident out.vtable_methods ≡ some (vtable_method m)
      → new_receiver m ≡ some r
      → m.sig.ident ≡ name
      → dispatch st T methods out name self s h
        ≡ reach st T
            (storage_accessor_of (some r))
            (accessor_of (some r))
            (methods name (skip_one (fn_args m.sig)))
            self
            s
            h
  unfolding dispatch object_method vtable_method
  call-found methods out name m r s h self e1 e2 e3 e4 =
      let args = skip_one (fn_args m.sig) in
      ap (λ o. call_method st T methods out o self s h) e1
      ∙ ap (λ w. call_found st T methods w (object_method m) self s h) e2
      ∙ ap (λ p. call_passed st T methods (vtable_method m) (object_method m) p self s h)
          (pass_args-same args)
      ∙ ap
          (λ o.
            reach st T (storage_accessor_of o) (accessor_of o) (methods m.sig.ident args) self s h)
          e3
      ∙ ap
          (λ i.
            reach st T (storage_accessor_of (some r)) (accessor_of (some r)) (methods i args) self s
              h)
          e4

  -- A call of a method of the trait reaches the value in the way of the method's receiver.
  pub dispatch-reach :
      (crate_name : SynPath) (trait : ItemTrait) (opts : DynObjectOps) (out : DynObjectOutput)
      (methods : Ident → Exprs → Bytes → Bytes × A) (name : Ident) (m : TraitItemFn) (s : S)
      (h : Heap) (self : ℕ)
      → dyn_object_impl crate_name trait opts ≡ success out
      → find_fn name (fn_items trait.items) ≡ some m
      → (r : VtableReceiver) × (new_receiver m ≡ some r)
        × (dispatch st T methods out name self s h
            ≡ reach st T
                (storage_accessor_of (some r))
                (accessor_of (some r))
                (methods name (skip_one (fn_args m.sig)))
                self
                s
                h)
  dispatch-reach crate_name trait opts out methods name m s h self eq found =
      let (all_ok, objects, vtables) = dyn_object_impl_lists crate_name trait opts out eq in
      let (named, dispatchable) =
        find_fn_lem is_dispatchable name m (fn_items trait.items) all_ok found in
      let (p, q, r, _, _, received, _) = vtable_fn_pointer-Agree m dispatchable in
      (
        r,
        received,
        call-found methods out name m r s h self
            (ap (find_object name) objects
              ∙ find_object-map name (fn_items trait.items)
              ∙ ap (option_map object_method) found)
            (ap (find_vtable m.sig.ident) vtables
              ∙ find_vtable-map m.sig.ident (fn_items trait.items)
              ∙ ap (λ n. option_map vtable_method (find_fn n (fn_items trait.items))) named
              ∙ ap (option_map vtable_method) found)
            received named,
      )

module _ {S A : Type 0} {st : Storage S} {T : RustType} (law : IsStorage st T) where
  reach_lem :
      (r : VtableReceiver) (method : Bytes → Bytes × A) (v : Bytes) (s : S) (h : Heap) (self : ℕ)
      → law.Stores v s h.blocks
      → IsPlace st self
      → length (method v).0 ≡ T.size
      → LeavesValue r method v
      → Returns
          (Called law method v s h)
          (reach st T (storage_accessor_of (some r)) (accessor_of (some r)) method self s h)
  unfolding reach
  reach_lem by_ref method v s h self stored at len leaves =
      rw (call_ref_lem law (λ v. (method v).1) v s h self stored at) (
        returns record {
          reply = refl;
          stores = subst (λ w. law.Stores w s h.blocks) (sym leaves) stored;
          owned_same = refl;
          rest_same = refl;
        })
  reach_lem by_mut method v s h self stored at len leaves =
      call_mut_lem law method v s h self stored at len
  reach_lem by_pinned method v s h self stored at len leaves =
      call_mut_lem law method v s h self stored at len

  -- Let `dyn_object` succeed on a trait with a method of some name, and an object store a value of a
  -- type with that method. A call of the method on the object, through the code that `dyn_object`
  -- writes, ends with no fault. It replies what the method of the stored type replies at the same
  -- arguments, the object then stores what that method has made of the value, and the rest of the
  -- heap is as it was. A method on `&self` is one that leaves the value as it is.
  pub dispatch_lem :
      (crate_name : SynPath) (trait : ItemTrait) (opts : DynObjectOps) (out : DynObjectOutput)
      (methods : Ident → Exprs → Bytes → Bytes × A) (name : Ident) (m : TraitItemFn) (v : Bytes)
      (s : S) (h : Heap) (self : ℕ)
      → dyn_object_impl crate_name trait opts ≡ success out
      → find_fn name (fn_items trait.items) ≡ some m
      → law.Stores v s h.blocks
      → IsPlace st self
      → length (methods name (skip_one (fn_args m.sig)) v).0 ≡ T.size
      → ((r : VtableReceiver)
          → new_receiver m ≡ some r
          → LeavesValue r (methods name (skip_one (fn_args m.sig))) v)
      → Returns
          (Called law (methods name (skip_one (fn_args m.sig))) v s h)
          (dispatch st T methods out name self s h)
  dispatch_lem crate_name trait opts out methods name m v s h self eq found stored at len leaves =
      let (r, received, called) =
        dispatch-reach st T crate_name trait opts out methods name m s h self eq found in
      let method = methods name (skip_one (fn_args m.sig)) in
      subst (Returns (Called law method v s h)) (sym called)
        (reach_lem r method v s h self stored at len (leaves r received))

-- ===== src/Lib.antt =====
-- dyn-utils: trait objects in a generic storage.
--
-- The crate stores a value of some concrete type in a `Storage` and keeps beside it the vtable of
-- that type; `DynObject` is the pair, and is used as the trait object. This library models the code
-- that runs, and proves what it does to the value, to the heap and to the destructors.
--
-- Parts, and where they are modelled:
--   Memory      what the language and its standard library give: values as bytes, layouts, the heap
--               of the global allocator, pointers with their provenance, typed reads and writes,
--               boxes. A read, write or deallocation that the language leaves undefined has the
--               outcome `undefined_behaviour`.
--   Storage     src/storage.rs: the traits `Storage` and `FromBox` (Storage/Trait), `Raw`, `Box` and
--               `RawOrBox` (a file each, with the laws below it; those of `RawOrBox` by its variant
--               in InPlace and OnHeap), and the parameters of `DefaultStorage` (Default). `IsStorage`
--               is the contract of the trait: one slot for a value, which every accessor leads to,
--               and that frees its block.
--   Object      src/object.rs: `DynObject::new`, `from_box`, `insert`, `Drop`, the traits `DynTrait`
--               and `Vtable`. Its clients take any storage by its contract.
--   Object/Call what a function in a vtable does: it reaches the value through the storage and calls
--               the method of the concrete type on it.
--   Any         src/impls.rs, the macro `any_impl`: `is` and the downcasts.
--   Future      src/impls.rs: `DynObject<dyn Future>`, and the same with `Send` (Send); an executor
--               that drives one (Completion).
--   Iterator    src/impls.rs: `DynObject<dyn Iterator>`; a loop that takes every item (Draining); a
--               client with any number of objects in one heap, against the iterators alone (Pool,
--               with its invariant in Held and one operation in Steps).
--   MaybeSync   src/lib.rs: `MaybeSync`, and the method body that macros/src/dyn_trait.rs generates
--               for `maybe_sync`.
--   Macros      macros/src: the attributes `dyn_trait` (DynTrait: Attrs, Captured, Method for
--               `MethodAttrs`, `CapturedLifetimes`, `DynMethod`), `dyn_object` (DynObject, with
--               Vtable for the function pointers) and `sync` (Sync), and what they share (Utils,
--               Respan, Parts, and Agrees for when a step fails). Syntax is the part of the trees of
--               `syn` that they read and write, Visit its walk over types. Macros/DynTrait also has
--               what is shown of the output: the loop over the items by an invariant (Loop), the
--               items taken over (Selection), their receivers and signatures (Receivers, Compatible,
--               Lifetimes, Names), the storage parameters (Parameters, Storages), the trait itself
--               (Hidden, HiddenItems, Leftover, Original), the tokens before the body (Header) and when it fails
--               (Errors, Outcome). DynObject has when it fails (Outcome) and how the pointers agree
--               (Pointers). Composition runs `dyn_object` on what `dyn_trait` writes. Dispatch runs
--               the vtable that `dyn_object` writes, Meaning evaluates the method bodies that
--               `dyn_trait` writes, and DynCall calls a method on an object through the code of both:
--               an async method (Life), a `maybe_sync` one (Immediate). DynTrait/Written has the
--               methods that `dyn_trait` writes, one by one.
--   Macros/Entry macros/src/lib.rs: the three attributes from tokens to tokens, with their arguments
--               (TraitOptions, ObjectOptions) and outcomes (TraitOutcome, Laws).
--   Tests       concrete inputs, runs, and the theorems at them. Tests/Unit has the unit tests of the
--               crate, run on the model.
--
-- Correspondence. A generic type `T` is a `RustType`: size, alignment as a power of two, whether it
-- needs drop, and its type id. A value is the list of its bytes. A method on `&self` takes the
-- address of the storage; an inline pointer is valid only while the storage lies there. A method on
-- `&mut self` returns the new storage. `Heap` holds the live blocks and the record of the destructors
-- that have run. Loops over contexts or calls are recursions on a list, so no fuel is
-- needed; the loop that takes every item of an iterator has fuel, and more than the number of items
-- is enough (Iterator/Draining).
--
-- The macros read and write syntax. An error is a `Result` with the macro's message as a constructor,
-- a panic of `unwrap` is `none`, and a
-- panic that ends an expansion the error `macro_panicked`. The trees have what the macros look at: a lifetime bound by `for`, a
-- pattern's types and the text of other syntax are kept as they are. Of the generated code the parts
-- that vary with the trait are data (`DynTraitOutput`, `DynObjectOutput`, `VtableMethod`,
-- `ObjectMethod`); the fixed text around them is not.
--
-- Parameters. In the unit tests they are the stride of an array and `now_or_never` of the crate
-- `futures`. The allocator chooses addresses that are not null, aligned and free (`Allocator`). The
-- compiler chooses the offset of the `Raw` variant in its enum (`Variant`). The methods of a stored
-- future or iterator are functions that keep the size of its bytes. That two types with one type id
-- are one type is a hypothesis of the downcast theorem. The functions on text of std and `heck` that
-- name generated items are the record `Casing`. What `syn` reads from tokens is a parameter of the
-- entry points: the item, and the options of the arguments with an error where it cannot go on.
--
-- Not modelled: running out of memory, which aborts inside the standard library; `Debug` output; auto
-- traits and lifetimes, which the compiler checks; the text of the build error of `Raw::new`;
-- the parsing of tokens, which `syn` does, and the positions that errors are reported at; raw
-- identifiers (`r#name`) in the names that the macros put together.
mod Prelude
pub mod Memory
pub mod Storage
pub mod Object
pub mod Any
pub mod Future
pub mod Iterator
pub mod MaybeSync
mod Tests
pub mod Macros

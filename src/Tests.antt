-- ===== src/Tests.antt =====
-- Concrete inputs, runs of the code on them, and the theorems at them.
mod Inputs
mod Completion
mod Storages
mod Objects
mod Futures
mod Pool
mod Macros
mod Generated
mod Entry
mod Written
mod DynCall
mod Unit

-- ===== src/Examples.antt =====
-- Tests of the model, and the theorems at concrete inputs.
mod DocumentRuns
mod Texts
mod Typed
mod Parts
mod Stores
mod Servers
mod Clients
mod Editing
mod Window

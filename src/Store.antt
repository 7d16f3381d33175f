-- ===== src/Store.antt =====
-- internal/store: the interface with its laws, its implementations, and the typed accessors.
pub mod Defs
pub mod Mem
pub mod Overlay
pub mod File
pub mod Typed

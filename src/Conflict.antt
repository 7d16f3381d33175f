-- ===== src/Conflict.antt =====
-- internal/conflict/conflict.go: what to do when the two sides of a link disagree.
--
-- An instant counts nanoseconds from Go's zero `time.Time`; a `time.Duration` is an int64, and
-- `Sub` stops at its bounds. A nil map and an empty one are one here, since the source only takes
-- their lengths, reads and ranges over them. The reasons are data: one constructor for each text.
pub mod Terms
pub mod Loops
pub mod Resolve
pub mod Clock
pub mod Diffs
pub mod Writes
pub mod Owned
pub mod Merging
pub mod Lossless
pub mod Overrides

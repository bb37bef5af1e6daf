-- ===== src/Routing.antt =====
-- routing.h and routing.c: the routing table, the forwarding table and their indices.
pub mod Path
pub mod Tables
pub mod Update
pub mod Indices
pub mod Closest
pub mod Invariant
pub mod Allocate
pub mod Preserve
pub mod View
pub mod Entries
pub mod Write
pub mod Route
pub mod Runs
pub mod Rewritten
pub mod Refine
pub mod Shrink
pub mod Free
pub mod Ties
pub mod Tests

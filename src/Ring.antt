-- ===== src/Ring.antt =====
-- ring.c: joining and leaving a ring, and what the node does when a message arrives or a
-- connection breaks.
pub mod Join
pub mod Awaiting
pub mod Messages
pub mod NewNode
pub mod Stray
pub mod Joined
pub mod Broken
pub mod Knot
pub mod Fuel
pub mod Leave
pub mod Unregister
pub mod KeptConnect
pub mod Kept
pub mod KeptJoin
pub mod KeptBroken
pub mod KeptMessages
pub mod KeptNodes
pub mod Shrinking
pub mod Removal
pub mod Safety
pub mod SafeAt
pub mod Loose
pub mod LooseKnot
pub mod Tests
pub mod SafetyTests
mod StrayTests

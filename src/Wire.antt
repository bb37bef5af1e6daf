-- ===== src/Wire.antt =====
-- The text of the messages: how they are written and read.
pub mod Print
pub mod Scan
pub mod PathString
pub mod RoundTrip
pub mod Bounds
pub mod RouteLine
pub mod NodeMessage
pub mod RouteMessage
pub mod Tests

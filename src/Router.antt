-- ===== src/Router.antt =====
-- The position-based router of IRtestWLAN (C++): the tables fed by beacons, the choice of a next
-- hop, and the packets that are delivered, forwarded or broadcast.
pub mod Float
pub mod Geometry
pub mod Table
pub mod Message
pub mod State
pub mod Beacon
pub mod Route
pub mod Forward
pub mod Node
pub mod Receiver
pub mod Start
mod Tests

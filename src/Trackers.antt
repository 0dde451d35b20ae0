-- ===== src/Trackers.antt =====
-- src/demagnetize/trackers/: what trackers are asked, and the peers that they name.
pub mod Address
pub mod Base
pub mod Peers
pub mod Udp
pub mod Utf8
pub mod Http
pub mod Tracker

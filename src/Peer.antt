-- ===== src/Peer.antt =====
-- src/demagnetize/peer/: the peer wire protocol.
pub mod Address
pub mod Contact
pub mod Display
pub mod Extensions
pub mod Message
pub mod Extended
pub mod Handshake
pub mod Wire
pub mod Connection
pub mod Metadata

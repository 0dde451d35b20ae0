-- ===== src/Tests.antt =====
-- Runs of the definitions at concrete inputs, and the theorems at inputs that meet their hypotheses.
mod Bencode
mod Peer
mod Metadata
mod Trackers
mod Http
mod Session
mod Batch
mod Handshake
mod Collect
mod Display
mod Demagnetizer

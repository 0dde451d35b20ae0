-- ===== src/Bencode.antt =====
-- src/demagnetize/bencode.py: the values, the encoder and the decoder, and the lemmas about them.
pub mod Value
pub mod Encode
pub mod Decode
pub mod Sorting
pub mod Number
pub mod Keys
pub mod Layout
pub mod Steps
pub mod RoundTrip
pub mod Sound
pub mod Normal
pub mod Lookup

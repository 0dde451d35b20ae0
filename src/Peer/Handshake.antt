-- ===== src/Peer/Handshake.antt =====
-- src/demagnetize/peer/messages.py: `Handshake`. The set of extensions is a list of bit numbers.
pub mod RoundTrip
use demagnetize.Prelude.{
  ℕ, ◌+◌, ◌≡◌, refl, Bool, List, [], ◌∷◌, ◌++◌, Bytes, codes, length, take, drop, replicate, ◌==◌,
}
use demagnetize.Prelude.Order.{eq_bytes}
use demagnetize.Prelude.BigEndian.{from_bytes}
use demagnetize.Prelude.Bits.{set_bits, bits_below}
use demagnetize.Errors.{Result, ok, err, ◌>>=◌, ◌>>◌, guard, value_error}
use demagnetize.Struct.{to_bytes}

-- HEADER
abbrev pub header : Bytes
header = 19 ∷ codes "BitTorrent protocol"

pub record Handshake : Type 0 where
  pub extensions : List ℕ
  pub info_hash : Bytes
  pub peer_id : Bytes

-- __bytes__
unfoldable pub handshake_bytes : Handshake → Result Bytes
handshake_bytes h = do
  exts ← to_bytes 8 (set_bits 0 h.extensions)
  ok (header ++ (exts ++ (h.info_hash ++ take 20 (h.peer_id ++ replicate 20 0))))

-- InfoHash.from_bytes, as the bytes that it keeps
unfoldable pub info_hash_from_bytes : Bytes → Result Bytes
info_hash_from_bytes b = do guard (length b == 20) value_error; ok b

-- Handshake.parse
unfoldable pub handshake_parse : Bytes → Result Handshake
handshake_parse blob = do
  guard (length blob == 68) value_error
  guard (eq_bytes (take 20 blob) header) value_error
  let exts = from_bytes (take 8 (drop 20 blob))
  info_hash ← info_hash_from_bytes (take 20 (drop 28 blob))
  ok (record { extensions = bits_below 64 exts; info_hash = info_hash; peer_id = drop 48 blob })

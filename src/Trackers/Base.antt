-- ===== src/Trackers/Base.antt =====
-- src/demagnetize/trackers/base.py: events, responses, and the compact lists of peers.
use demagnetize.Prelude.{none, List, [], map, Bytes, codes, take, drop}
use demagnetize.Prelude.Int.{ℤ, pos}
use demagnetize.Prelude.BigEndian.{from_bytes}
use demagnetize.Errors.{Result, ok, err, value_error}
use demagnetize.Struct.Records.{iter_unpack}
use demagnetize.Peer.Address.{Peer}
use demagnetize.Trackers.Address.{ipv4_text, ipv6_text}

pub data AnnounceEvent : Type 0 where
  announced completed started stopped : AnnounceEvent

-- AnnounceEvent.http_value
abbrev pub http_value : AnnounceEvent → Bytes
http_value announced = []
http_value completed = codes "completed"
http_value started = codes "started"
http_value stopped = codes "stopped"

-- AnnounceEvent.udp_value
abbrev pub udp_value : AnnounceEvent → ℤ
udp_value announced = pos 0
udp_value completed = pos 1
udp_value started = pos 2
udp_value stopped = pos 3

-- A record of "!IH", and one of "!16cH".
abbrev pub peer_of : Bytes → Peer
peer_of r = record {
  host = ipv4_text (from_bytes (take 4 r));
  port = pos (from_bytes (drop 4 r));
  id = none;
}

abbrev pub peer6_of : Bytes → Peer
peer6_of r = record { host = ipv6_text (take 16 r); port = pos (from_bytes (drop 16 r)); id = none }

-- `except (struct.error, AddressValueError): raise ValueError(…)` around the loop.
abbrev pub peers_from : (Bytes → Peer) → Result (List Bytes) → Result (List Peer)
peers_from f (ok rs) = ok (map f rs)
peers_from f (err _) = err value_error

-- unpack_peers
unfoldable pub unpack_peers : Bytes → Result (List Peer)
unpack_peers blob = peers_from peer_of (iter_unpack 6 blob)

-- unpack_peers6
unfoldable pub unpack_peers6 : Bytes → Result (List Peer)
unpack_peers6 blob = peers_from peer6_of (iter_unpack 18 blob)

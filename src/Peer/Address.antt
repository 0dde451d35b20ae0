-- ===== src/Peer/Address.antt =====
-- `Peer` of src/demagnetize/peer/core.py: what is known of a peer before it is connected to.
use demagnetize.Prelude.{Bool, ◌&&◌, Option, Bytes}
use demagnetize.Prelude.Int.{ℤ, eq_ℤ}
use demagnetize.Prelude.Order.{eq_bytes}

-- Text is the bytes that encode it. A tracker may name a port that is none.
pub record Peer : Type 0 where
  pub host : Bytes
  pub port : ℤ
  pub id : Option Bytes

abbrev pub PeerAddress : Type 0
PeerAddress = Bytes × ℤ

-- Peer.address
abbrev pub address : Peer → PeerAddress
address p = (p.host, p.port)

-- `==` on addresses
abbrev pub eq_address : PeerAddress → PeerAddress → Bool
eq_address (h, p) (k, q) = eq_bytes h k && eq_ℤ p q

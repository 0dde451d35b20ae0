-- ===== src/Peer/Connection.antt =====
-- src/demagnetize/peer/core.py: `PeerConnection`.
-- The socket is what the peer will send until it closes (`incoming`), what was sent to it (`outgoing`),
-- and how many more messages it takes before it closes (`accepts`).
pub mod Receive
pub mod Handshake
use demagnetize.Prelude.{
  ℕ, zero, suc, ◌-◌, ◌≡◌, refl, Bool, true, false, List, [], ◌∷◌, ◌++◌, Bytes, length, take, drop,
  leb, ltb, ◌==◌, if◌then◌else◌,
}
use demagnetize.Prelude.Int.{ℤ, pos}
use demagnetize.Prelude.BigEndian.{from_bytes}
use demagnetize.Prelude.Dict.{insert}
use demagnetize.Errors.{
  Error, Result, ok, err, ◌>>=◌, ◌>>◌, guard, unbencode_error, value_error, peer_error, out_of_fuel,
}
use demagnetize.Peer.Extensions.{Bep10Registry, metadata, from_dict, register_all, register}
use demagnetize.Peer.Wire.{AnyMessage, encode_message, decode_message}

-- MAX_PEER_MSG_LEN
abbrev pub max_peer_msg_len : ℕ
max_peer_msg_len = 65535

-- UT_METADATA
abbrev pub ut_metadata : ℤ
ut_metadata = pos 42

-- LOCAL_BEP10_REGISTRY
abbrev pub local_bep10_registry : Bep10Registry
local_bep10_registry = record {
  from_code = (ut_metadata, metadata) ∷ [];
  to_code = (metadata, ut_metadata) ∷ [];
}

local_bep10_registry_lem : from_dict ((metadata, ut_metadata) ∷ []) ≡ ok local_bep10_registry
unfolding from_dict register_all register insert
local_bep10_registry_lem = refl

pub record PeerConnection : Type 0 where
  pub info_hash : Bytes
  pub extensions : List ℕ
  pub remote_bep10_registry : Bep10Registry
  pub incoming : Bytes
  pub outgoing : List Bytes
  pub accepts : ℕ

-- What is sent is added to what was sent; a peer that has closed is a `PeerError`.
unfoldable pub send_frame : Bytes → PeerConnection → Result PeerConnection
send_frame frame c =
    if c.accepts == 0
    then err peer_error
    else ok (record c { outgoing = c.outgoing ++ frame ∷ []; accepts = c.accepts - 1 })

-- send
unfoldable pub send : AnyMessage → PeerConnection → Result PeerConnection
send msg c = do frame ← encode_message msg c.remote_bep10_registry; send_frame frame c

-- read
unfoldable pub read : ℕ → PeerConnection → Result (Bytes × PeerConnection)
read n c =
    if leb n (length c.incoming)
    then ok (take n c.incoming, record c { incoming = drop n c.incoming })
    else err peer_error

-- `except ValueError as e: self.error(…)`
unfoldable pub catch_value_error {ℓ} : {A : Type ℓ} → Result A → Result A
catch_value_error (err (unbencode_error m)) = err peer_error
catch_value_error (err value_error) = err peer_error
catch_value_error r = r

-- The rest of a round of `receive`: the length is not 0.
unfoldable pub receive_payload : ℕ → Bytes → PeerConnection → Result (AnyMessage × PeerConnection)
receive_payload depth blen c = do
  (payload, c') ← read (from_bytes blen) c
  msg ← catch_value_error (decode_message depth (blen ++ payload) local_bep10_registry)
  ok (msg, c')

-- The loop of `receive`, with fuel for its rounds; `depth` is the interpreter's, for the decoder.
unfoldable pub receive_loop : ℕ → ℕ → PeerConnection → Result (AnyMessage × PeerConnection)
receive_loop depth zero c = err out_of_fuel
receive_loop depth (suc fuel) c = do
  (blen, c') ← read 4 c
  guard (leb (from_bytes blen) max_peer_msg_len) peer_error
  let again = receive_loop depth fuel c'
  if from_bytes blen == 0 then again else receive_payload depth blen c'

-- receive; a round reads four bytes at least.
unfoldable pub receive : ℕ → PeerConnection → Result (AnyMessage × PeerConnection)
receive depth c = receive_loop depth (suc (length c.incoming)) c

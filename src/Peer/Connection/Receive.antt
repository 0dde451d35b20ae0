-- ===== src/Peer/Connection/Receive.antt =====
-- `PeerConnection.read` and `receive` of src/demagnetize/peer/core.py on any stream.
use demagnetize.Prelude.{
  ℕ, zero, suc, ◌+◌, ◌≤◌, ◌<◌, ◌≡◌, refl, ◌∙◌, ◌++◌, arith, length, length-append_bytes,
  length-take, length-drop, leb, leb→le, ◌==◌,
}
use demagnetize.Prelude.BigEndian.{from_bytes}
use demagnetize.Errors.{
  Error, Result, ok, err, unbencode_error, value_error, peer_error, Yields, returns, raises,
  Yields-if, Yields->>=, Yields-guard, Yields-map,
}
use demagnetize.Peer.Wire.{AnyMessage}
use demagnetize.Peer.Wire.Raises.{decode_message-eq-err}
use demagnetize.Peer.Connection.{
  PeerConnection, read, catch_value_error, receive_payload, receive_loop, receive,
  local_bep10_registry, max_peer_msg_len,
}

-- The connection after some bytes were read: all else is as before.
pub record IsAfter (c c' : PeerConnection) : Type 0 where
  pub same_hash : c'.info_hash ≡ c.info_hash
  pub same_registry : c'.remote_bep10_registry ≡ c.remote_bep10_registry
  pub same_outgoing : c'.outgoing ≡ c.outgoing
  pub same_accepts : c'.accepts ≡ c.accepts

abbrev pub IsPeerError : Error → Type 0
IsPeerError e = e ≡ peer_error

read-Yields :
    (n : ℕ) (c : PeerConnection)
    → Yields
        (λ (b, c'). (length b ≡ n) × (length c'.incoming + n ≡ length c.incoming) × IsAfter c c')
        IsPeerError
        (read n c)
unfolding read
read-Yields n c =
    Yields-if (leb n (length c.incoming))
      (λ h.
        let fits : n ≤ length c.incoming = leb→le n (length c.incoming) h in
        returns (
          omega (arith, length-take n c.incoming),
          omega (arith, length-drop n c.incoming),
          record {
            same_hash = refl;
            same_registry = refl;
            same_outgoing = refl;
            same_accepts = refl;
          },
        ))
      λ _. raises refl

catch_value_error-Yields {ℓ} :
    {A : Type ℓ} (r : Result A)
    → ((e : Error) → r ≡ err e → e ≡ value_error)
    → Yields (λ _. Unit {0}) IsPeerError (catch_value_error r)
unfolding catch_value_error
catch_value_error-Yields (ok a) h = returns tt
catch_value_error-Yields (err (unbencode_error m)) h = raises refl
catch_value_error-Yields (err value_error) h = raises refl
catch_value_error-Yields (err e) h = cc (h _ refl)

pub IsAfter-trans : (c c' c'' : PeerConnection) → IsAfter c c' → IsAfter c' c'' → IsAfter c c''
IsAfter-trans c c' c'' h k = record {
  same_hash = k.same_hash ∙ h.same_hash;
  same_registry = k.same_registry ∙ h.same_registry;
  same_outgoing = k.same_outgoing ∙ h.same_outgoing;
  same_accepts = k.same_accepts ∙ h.same_accepts;
}

-- A message is read, and everything but the bytes that it took is as before.
abbrev pub Received : PeerConnection → AnyMessage × PeerConnection → Type 0
Received c (msg, c') = (length c'.incoming < length c.incoming) × IsAfter c c'

receive_loop-Yields :
    (depth fuel : ℕ) (c : PeerConnection)
    → length c.incoming < fuel
    → Yields (Received c) IsPeerError (receive_loop depth fuel c)
unfolding receive_loop receive_payload
receive_loop-Yields depth zero c h = absurd (omega arith)
receive_loop-Yields depth (suc fuel) c h =
    Yields->>= (read-Yields 4 c) λ (blen, c') (len, left, same).
      Yields-guard (leb (from_bytes blen) max_peer_msg_len) peer_error refl λ _.
        Yields-if (from_bytes blen == 0)
          (λ _.
            Yields-map (receive_loop-Yields depth fuel c' (omega arith))
              λ (msg, c'') (less, after). (omega arith, IsAfter-trans c c' c'' same after))
          λ some_length.
            Yields->>= (read-Yields (from_bytes blen) c') λ (payload, c'') (len', left', same').
              Yields->>=
                (catch_value_error-Yields _ λ e.
                  decode_message-eq-err depth (blen ++ payload) local_bep10_registry e
                    (ground (arith, length-append_bytes blen payload)))
                λ msg _. returns (omega arith, IsAfter-trans c c' c'' same same')

-- `receive` returns a message and has read at least a byte for it, all but the bytes that it read being
-- as before, or raises a `PeerError`. It ends, whatever the peer sends: keepalives come to an end with
-- the peer's bytes.
pub receive-Yields :
    (depth : ℕ) (c : PeerConnection) → Yields (Received c) IsPeerError (receive depth c)
unfolding receive
receive-Yields depth c = receive_loop-Yields depth (suc (length c.incoming)) c (omega arith)

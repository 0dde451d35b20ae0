-- ===== src/Peer/Metadata/Pieces.antt =====
-- The steps of `get_metadata_info` of src/demagnetize/peer/core.py.
use demagnetize.Prelude.{
  ltb, ◌^◌, ℕ, zero, suc, ◌+◌, ◌<◌, ◌≡◌, refl, ap, ◌∙◌, true, Option, none, some, Bytes, arith,
  length, ◌==◌,
}
use demagnetize.Prelude.Int.{ℤ, pos, negsuc, eq_ℤ}
use demagnetize.Prelude.Dict.{lookup}
use demagnetize.Errors.{
  Error, Result, ok, err, ◌>>=◌, peer_error, is_raised, Yields, returns, raises, Yields-if,
  Yields->>=, Yields-guard, Yields-map, Yields-widen,
}
use demagnetize.Struct.{byte, encode_uint}
use demagnetize.Util.InfoPiecer.{InfoPiecer, add_piece, IsFed, add_piece-IsFed, add_piece-ok}
use demagnetize.Peer.Extensions.{metadata, eq_extension, Bep10Registry}
use demagnetize.Peer.Message.{extended, to_payload, message_bytes}
use demagnetize.Peer.Extended.{
  ExtendedHandshake, Bep9Message, msg_request, msg_reject, bep9_to_extended, bep9_payload, code_of,
}
use demagnetize.Peer.Wire.{AnyMessage, plain, extended_handshake, bep9, to_message, encode_message}
use demagnetize.Peer.Connection.{PeerConnection, send_frame, send, receive}
use demagnetize.Peer.Connection.Receive.{Received, receive-Yields}
use demagnetize.Peer.Metadata.{
  is_ignored, as_handshake, pass_over, await_handshake, agrees, add_or_fail, accept_piece, answer,
  as_data, await_piece, fetch_pieces,
}

abbrev pub IsRaised : Error → Type 0
IsRaised e = is_raised e ≡ true

byte-Yields : (code : ℤ) → Yields (λ _. Unit {0}) IsRaised (byte code)
unfolding byte
byte-Yields (pos n) = Yields-if (ltb n 256) (λ _. returns tt) λ _. raises refl
byte-Yields (negsuc n) = raises refl

pub extended-Yields :
    (code : ℤ) (p : Bytes) → Yields (λ _. Unit {0}) IsRaised (message_bytes (extended code p))
unfolding message_bytes to_payload encode_uint
extended-Yields code p =
    Yields->>= (Yields->>= {Q = λ _. Unit {0}} (byte-Yields code) λ b _. returns tt) λ payload _.
      Yields->>= {P = λ _. Unit {0}}
        (Yields-if (ltb (1 + length payload) (256 ^ 4)) (λ _. returns tt) λ _. raises refl)
        λ len _. returns tt

code_of-Yields : (found : Option ℤ) → Yields (λ _. Unit {0}) IsRaised (code_of found)
unfolding code_of
code_of-Yields none = raises refl
code_of-Yields (some code) = returns tt

encode-Yields :
    (m : Bep9Message) (r : Bep10Registry)
    → Yields (λ _. Unit {0}) IsRaised (encode_message (bep9 m) r)
unfolding encode_message to_message bep9_to_extended
encode-Yields m r =
    Yields->>= {P = λ msg. (code : ℤ) × (msg ≡ extended code (bep9_payload m))}
      (Yields->>= (code_of-Yields (lookup eq_extension metadata r.to_code))
        λ code _. returns (code, refl))
      λ msg (code, e). rw e (extended-Yields code (bep9_payload m))

-- Sending leaves what the peer sends, and the torrent, alone.
abbrev Sent : PeerConnection → PeerConnection → Type 0
Sent c c' = (c'.incoming ≡ c.incoming) × (c'.info_hash ≡ c.info_hash)

send-Yields : (m : Bep9Message) (c : PeerConnection) → Yields (Sent c) IsRaised (send (bep9 m) c)
unfolding send send_frame
send-Yields m c =
    Yields->>= (encode-Yields m c.remote_bep10_registry)
      λ frame _. Yields-if (c.accepts == 0) (λ _. raises refl) λ _. returns (refl, refl)

answer-Yields : (msg : AnyMessage) (c : PeerConnection) → Yields (Sent c) IsRaised (answer msg c)
unfolding answer
answer-Yields (plain m) c =
    Yields-guard (is_ignored (plain m)) peer_error refl λ _. returns (refl, refl)
answer-Yields (extended_handshake h) c =
    Yields-guard (is_ignored (extended_handshake h)) peer_error refl λ _. returns (refl, refl)
answer-Yields (bep9 m) c =
    Yields-if (eq_ℤ m.msg_type msg_reject) (λ _. raises refl)
      λ _. Yields-if (eq_ℤ m.msg_type msg_request) (λ _. send-Yields _ c) λ _. returns (refl, refl)

receive-Raised : (depth : ℕ) (c : PeerConnection) → Yields (Received c) IsRaised (receive depth c)
receive-Raised depth c = Yields-widen IsRaised (λ e h. rw h) (receive-Yields depth c)

pub await_handshake-Yields :
    (depth fuel : ℕ) (c : PeerConnection)
    → length c.incoming < fuel
    → Yields (λ (h, c'). c'.info_hash ≡ c.info_hash) IsRaised (await_handshake depth fuel c)
unfolding await_handshake pass_over
await_handshake-Yields depth zero c h = absurd (omega arith)
await_handshake-Yields depth (suc fuel) c h =
    Yields->>= (receive-Raised depth c) λ (msg, c') (less, after).
      branch (as_handshake msg) c' after.same_hash (
        Yields-guard (is_ignored msg) peer_error refl λ _.
          Yields-map (await_handshake-Yields depth fuel c' (omega arith))
            λ (h, c'') same. same ∙ after.same_hash)
  where
    branch :
        (found : Option ExtendedHandshake) (c' : PeerConnection)
        {again : Result (ExtendedHandshake × PeerConnection)}
        → c'.info_hash ≡ c.info_hash
        → Yields (λ (h, c'). c'.info_hash ≡ c.info_hash) IsRaised again
        → Yields
            (λ (h, c'). c'.info_hash ≡ c.info_hash)
            IsRaised
            (elim found [ some h ↦ ok (h, c') | none ↦ again ])
    branch (some h) c' same again = returns same
    branch none c' same again = again

add_or_fail-Yields :
    (p : InfoPiecer) (blob : Bytes)
    → Yields (λ p'. add_piece p blob ≡ ok p') IsRaised (add_or_fail p blob)
unfolding add_or_fail
add_or_fail-Yields p blob = go (add_piece p blob)
  where
    go :
        (r : Result InfoPiecer)
        → Yields (λ p'. r ≡ ok p') IsRaised (elim r [ ok p' ↦ ok p' | err _ ↦ err peer_error ])
    go (ok p') = returns refl
    go (err e) = raises refl

-- One piece more is in, and what was in before is in step as it was.
abbrev Grown : InfoPiecer → InfoPiecer → Type 0
Grown p p' =
    (IsFed p → IsFed p')
    × (p'.index ≡ p.index + 1)
    × (p'.sizes ≡ p.sizes)
    × (p'.total_size ≡ p.total_size)

add_piece-Grown : (p p' : InfoPiecer) (blob : Bytes) → add_piece p blob ≡ ok p' → Grown p p'
add_piece-Grown p p' blob e =
    let (_, _, index, sizes, total, _, _) = add_piece-ok p p' blob e in
    (λ fed. add_piece-IsFed p p' blob fed e, index, sizes, total)

accept_piece-Yields :
    (i : ℕ) (m : Bep9Message) (p : InfoPiecer) → Yields (Grown p) IsRaised (accept_piece i m p)
unfolding accept_piece
accept_piece-Yields i m p = Yields-guard (eq_ℤ m.piece (pos i)) peer_error refl λ _.
    Yields-guard (agrees m.total_size p.total_size) peer_error refl
      λ _. Yields-map (add_or_fail-Yields p m.payload) λ p' e. add_piece-Grown p p' m.payload e

abbrev Fetched : InfoPiecer → PeerConnection → InfoPiecer × PeerConnection → Type 0
Fetched p c (p', c') = Grown p p' × (c'.info_hash ≡ c.info_hash)

await_piece-Yields :
    (depth fuel i : ℕ) (p : InfoPiecer) (c : PeerConnection)
    → length c.incoming < fuel
    → Yields (Fetched p c) IsRaised (await_piece depth fuel i p c)
unfolding await_piece
await_piece-Yields depth zero i p c h = absurd (omega arith)
await_piece-Yields depth (suc fuel) i p c h =
    Yields->>= (receive-Raised depth c) λ (msg, c') (less, after).
      branch (as_data msg) c' after.same_hash (
        Yields->>= (answer-Yields msg c') λ c'' (same_incoming, same_hash).
          Yields-map
            (await_piece-Yields depth fuel i p c'' (omega (arith, ap length same_incoming)))
            λ (p', c₃) (grown, same). (grown, same ∙ (same_hash ∙ after.same_hash)))
  where
    branch :
        (found : Option Bep9Message) (c' : PeerConnection)
        {again : Result (InfoPiecer × PeerConnection)}
        → c'.info_hash ≡ c.info_hash
        → Yields (Fetched p c) IsRaised again
        → Yields
            (Fetched p c)
            IsRaised
            (elim found [ some m ↦ (do p' ← accept_piece i m p; ok (p', c')) | none ↦ again ])
    branch (some m) c' same again =
        Yields->>= (accept_piece-Yields i m p) λ p' grown. returns (grown, same)
    branch none c' same again = again

-- `n` pieces more are in.
abbrev pub Completed : ℕ → InfoPiecer → PeerConnection → InfoPiecer × PeerConnection → Type 0
Completed n p c (p', c') =
    (IsFed p → IsFed p')
    × (p'.index ≡ p.index + n)
    × (p'.sizes ≡ p.sizes)
    × (p'.total_size ≡ p.total_size)
    × (c'.info_hash ≡ c.info_hash)

pub fetch_pieces-Yields :
    (depth n i : ℕ) (p : InfoPiecer) (c : PeerConnection)
    → Yields (Completed n p c) IsRaised (fetch_pieces depth n i p c)
unfolding fetch_pieces
fetch_pieces-Yields depth zero i p c = returns (λ fed. fed, omega arith, refl, refl, refl)
fetch_pieces-Yields depth (suc n) i p c = Yields->>= (send-Yields _ c) λ c' (_, same).
    Yields->>= (await_piece-Yields depth (suc (length c'.incoming)) i p c' (omega arith))
      λ (p', c'') (grown, same').
        Yields-map (fetch_pieces-Yields depth n (i + 1) p' c'')
          λ (p'', c₃) (fed, index, sizes, total, hash). (
            λ f. fed (grown.0 f),
            omega (arith, grown.1),
            sizes ∙ grown.2,
            total ∙ grown.3,
            hash ∙ (same' ∙ same),
          )

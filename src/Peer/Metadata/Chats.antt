-- ===== src/Peer/Metadata/Chats.antt =====
-- The messages that `get_metadata_info` of src/demagnetize/peer/core.py passes over.
use demagnetize.Prelude.{
  ℕ, zero, suc, ◌<◌, ◌≡◌, refl, ap, ◌∙◌, Bool, true, false, none, some, List, [], ◌∷◌, ◌++◌, Bytes,
  arith, length, length-append_bytes, append_assoc,
}
use demagnetize.Errors.{ok, ◌>>=◌}
use demagnetize.Util.InfoPiecer.{InfoPiecer}
use demagnetize.Peer.Extended.{ExtendedHandshake, Bep9Message}
use demagnetize.Peer.Wire.{AnyMessage, plain, extended_handshake, bep9}
use demagnetize.Peer.Connection.{PeerConnection}
use demagnetize.Peer.Metadata.{
  is_ignored, as_handshake, pass_over, await_handshake, accept_piece, answer, as_data, await_piece,
}
use demagnetize.Peer.Metadata.Frames.{IsFrame, receive-frame}

-- Messages that are passed over, each with the bytes that it came in.
abbrev pub Chatter : Type 0
Chatter = List (Bytes × AnyMessage)

abbrev pub stream_of : Chatter → Bytes
stream_of [] = []
stream_of ((frame, msg) ∷ ms) = frame ++ stream_of ms

abbrev pub Chats : (AnyMessage → Bool) → ℕ → Chatter → Type 0
Chats passes depth [] = Unit
Chats passes depth ((frame, msg) ∷ ms) =
    IsFrame depth frame msg × (passes msg ≡ true) × Chats passes depth ms

-- What may come before the extended handshake.
abbrev pub is_early : AnyMessage → Bool
is_early (plain m) = is_ignored (plain m)
is_early _ = false

answer-ignored :
    (msg : AnyMessage) (c : PeerConnection) → is_ignored msg ≡ true → answer msg c ≡ ok c
unfolding answer is_ignored
answer-ignored (plain m) c h = rw h
answer-ignored (extended_handshake m) c h = refl
answer-ignored (bep9 m) c h = cc

as_data-ignored : (msg : AnyMessage) → is_ignored msg ≡ true → as_data msg ≡ none
unfolding is_ignored as_data
as_data-ignored (plain m) h = refl
as_data-ignored (extended_handshake m) h = refl
as_data-ignored (bep9 m) h = cc

-- What passes over is read off, and the piece that follows is taken.
pub await_piece-Chats :
    (depth fuel i : ℕ) (p : InfoPiecer) (c : PeerConnection) (ms : Chatter) (frame rest : Bytes)
    (m : Bep9Message)
    → Chats is_ignored depth ms
    → IsFrame depth frame (bep9 m)
    → as_data (bep9 m) ≡ some m
    → c.incoming ≡ stream_of ms ++ (frame ++ rest)
    → length c.incoming < fuel
    → await_piece depth fuel i p c
      ≡ (do p' ← accept_piece i m p; ok (p', record c { incoming = rest }))
unfolding await_piece
await_piece-Chats depth zero i p c ms frame rest m chats is has_data e h = absurd (omega arith)
await_piece-Chats depth (suc fuel) i p c [] frame rest m chats is has_data e h =
    cc (receive-frame depth frame rest (bep9 m) c is e, has_data)
await_piece-Chats depth (suc fuel) i p c ((f, msg) ∷ ms) frame rest m (is', ignored, chats) is
      has_data e h =
    let rest' = stream_of ms ++ (frame ++ rest) in
    let e' : c.incoming ≡ f ++ rest' = e ∙ append_assoc f (stream_of ms) (frame ++ rest) in
    cc (
      receive-frame depth f rest' msg c is' e',
      as_data-ignored msg ignored,
      answer-ignored msg (record c { incoming = rest' }) ignored,
      await_piece-Chats depth fuel i p (record c { incoming = rest' }) ms frame rest m chats is
          has_data refl (omega (arith, ap length e', length-append_bytes f rest', is'.some_length)),
    )

as_handshake-early : (msg : AnyMessage) → is_early msg ≡ true → as_handshake msg ≡ none
unfolding as_handshake
as_handshake-early (plain m) h = refl
as_handshake-early (extended_handshake m) h = cc
as_handshake-early (bep9 m) h = cc

is_ignored-early : (msg : AnyMessage) → is_early msg ≡ true → is_ignored msg ≡ true
is_ignored-early (plain m) h = h
is_ignored-early (extended_handshake m) h = cc
is_ignored-early (bep9 m) h = cc

-- The first handshake is taken, whatever passes over before it.
pub await_handshake-Chats :
    (depth fuel : ℕ) (c : PeerConnection) (ms : Chatter) (frame rest : Bytes)
    (h : ExtendedHandshake)
    → Chats is_early depth ms
    → IsFrame depth frame (extended_handshake h)
    → c.incoming ≡ stream_of ms ++ (frame ++ rest)
    → length c.incoming < fuel
    → await_handshake depth fuel c ≡ ok (h, record c { incoming = rest })
unfolding await_handshake pass_over as_handshake
await_handshake-Chats depth zero c ms frame rest h chats is e less = absurd (omega arith)
await_handshake-Chats depth (suc fuel) c [] frame rest h chats is e less =
    rw (receive-frame depth frame rest (extended_handshake h) c is e)
await_handshake-Chats depth (suc fuel) c ((f, msg) ∷ ms) frame rest h (is', early, chats) is e
      less =
    let rest' = stream_of ms ++ (frame ++ rest) in
    let e' : c.incoming ≡ f ++ rest' = e ∙ append_assoc f (stream_of ms) (frame ++ rest) in
    cc (
      receive-frame depth f rest' msg c is' e',
      as_handshake-early msg early,
      is_ignored-early msg early,
      await_handshake-Chats depth fuel (record c { incoming = rest' }) ms frame rest h chats is refl
          (omega (arith, ap length e', length-append_bytes f rest', is'.some_length)),
    )

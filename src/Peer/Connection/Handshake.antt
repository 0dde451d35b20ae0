-- ===== src/Peer/Connection/Handshake.antt =====
-- src/demagnetize/peer/core.py: `PeerConnection.handshake`.
use demagnetize.Prelude.{
  ℕ, ◌+◌, ◌≡◌, refl, sym, ap, ◌∙◌, Bool, true, none, some, List, [], ◌∷◌, Bytes, length, take, drop,
  leb, leb→le, ◌≤◌, ◌==◌, if◌then◌else◌, arith, length-append,
}
use demagnetize.Prelude.Order.{eq_bytes, eq_bytes→eq}
use demagnetize.Prelude.Bits.{elem}
use demagnetize.Errors.{
  Result, ok, err, ◌>>=◌, ◌>>◌, guard, unbencode_error, value_error, peer_error, Yields, returns,
  raises, Yields-if, Yields->>=, Yields-guard, Yields-map,
}
use demagnetize.Peer.Extensions.{bep10_extensions, fast}
use demagnetize.Peer.Message.{have_none}
use demagnetize.Peer.Extended.{make}
use demagnetize.Peer.Handshake.{Handshake, handshake_parse, handshake_bytes}
use demagnetize.Peer.Wire.{AnyMessage, plain, extended_handshake}
use demagnetize.Peer.Connection.{
  PeerConnection, send_frame, send, read, catch_value_error, local_bep10_registry,
}

-- SUPPORTED_EXTENSIONS
abbrev pub supported_extensions : List ℕ
supported_extensions = bep10_extensions ∷ fast ∷ []

-- `SUPPORTED_EXTENSIONS & extensions`
abbrev pub common : List ℕ → List ℕ → List ℕ
common [] extensions = []
common (i ∷ is) extensions =
    let rest = common is extensions in if elem i extensions then i ∷ rest else rest

-- LENGTH
abbrev pub handshake_length : ℕ
handshake_length = 68

-- `if Extension.FAST in self.extensions: …`
unfoldable pub send_have_none : PeerConnection → Result PeerConnection
send_have_none c = if elem fast c.extensions then send (plain have_none) c else ok c

-- What follows the peer's handshake.
unfoldable pub accept : Bytes → Handshake → PeerConnection → Result PeerConnection
unfolding send_have_none
accept client hs c = do
  guard (eq_bytes hs.info_hash c.info_hash) peer_error
  let conn = record c { extensions = common supported_extensions hs.extensions }
  guard (elem bep10_extensions conn.extensions) peer_error
  c' ← send (extended_handshake (make local_bep10_registry (some client) none)) conn
  send_have_none c'

-- handshake; `peer_id` is the app's, and `client` stands for CLIENT.
unfoldable pub handshake : Bytes → Bytes → PeerConnection → Result PeerConnection
unfolding accept
handshake peer_id client c = do
  frame ←
      handshake_bytes
        (record { extensions = supported_extensions; info_hash = c.info_hash; peer_id = peer_id })
  c' ← send_frame frame c
  (r, c'') ← read handshake_length c'
  hs ← catch_value_error (handshake_parse r)
  accept client hs c''

any_Yields {ℓ} : {A : Type ℓ} (r : Result A) → Yields (λ a. r ≡ ok a) (λ _. Unit {0}) r
any_Yields (ok a) = returns refl
any_Yields (err e) = raises tt

-- One message more was sent, and all else is as before.
abbrev SentOne : PeerConnection → PeerConnection → Type 0
SentOne c c' =
    (length c'.outgoing ≡ length c.outgoing + 1)
    × (c'.incoming ≡ c.incoming)
    × (c'.info_hash ≡ c.info_hash)
    × (c'.extensions ≡ c.extensions)

send_frame-Yields :
    (frame : Bytes) (c : PeerConnection) → Yields (SentOne c) (λ _. Unit {0}) (send_frame frame c)
unfolding send_frame
send_frame-Yields frame c =
    Yields-if (c.accepts == 0) (λ _. raises tt)
      λ _. returns (length-append c.outgoing (frame ∷ []), refl, refl, refl)

send-Yields :
    (msg : AnyMessage) (c : PeerConnection) → Yields (SentOne c) (λ _. Unit {0}) (send msg c)
unfolding send
send-Yields msg c = Yields->>= (any_Yields _) λ frame _. send_frame-Yields frame c

send_have_none-Yields :
    (c : PeerConnection)
    → Yields
        (λ c'.
          (length c'.outgoing ≡ length c.outgoing + (if elem fast c.extensions then 1 else 0))
          × (c'.incoming ≡ c.incoming)
          × (c'.info_hash ≡ c.info_hash)
          × (c'.extensions ≡ c.extensions))
        (λ _. Unit {0})
        (send_have_none c)
unfolding send_have_none
send_have_none-Yields c =
    Yields-if (elem fast c.extensions)
      (λ has.
        Yields-map (send-Yields (plain have_none) c)
          λ c' (sent, incoming, hash, exts). (rw has sent, incoming, hash, exts))
      λ no_fast. returns (rw no_fast (omega arith), refl, refl, refl)

elem-common-fast : (exts : List ℕ) → elem fast (common supported_extensions exts) ≡ elem fast exts
elem-common-fast exts = ground arith

elem-common-bep10_extensions :
    (exts : List ℕ)
    → elem bep10_extensions (common supported_extensions exts) ≡ elem bep10_extensions exts
elem-common-bep10_extensions exts = ground arith

-- What is known of a peer whose handshake `hs` was accepted on `c`.
abbrev pub Accepted : PeerConnection → Handshake → PeerConnection → Type 0
Accepted c hs c' =
    (hs.info_hash ≡ c.info_hash)
    × (elem bep10_extensions hs.extensions ≡ true)
    × (c'.info_hash ≡ c.info_hash)
    × (c'.incoming ≡ c.incoming)
    × (c'.extensions ≡ common supported_extensions hs.extensions)
    × (length c'.outgoing ≡ length c.outgoing + (if elem fast hs.extensions then 2 else 1))

two_counts :
    (b b' : Bool) (n n' n'' : ℕ)
    → b' ≡ b
    → n' ≡ n + 1
    → n'' ≡ n' + (if b' then 1 else 0)
    → n'' ≡ n + (if b then 2 else 1)
two_counts b b' n n' n'' e f g = ground arith

accept-Yields :
    (client : Bytes) (hs : Handshake) (c : PeerConnection)
    → Yields (Accepted c hs) (λ _. Unit {0}) (accept client hs c)
unfolding accept
accept-Yields client hs c =
    let conn = record c { extensions = common supported_extensions hs.extensions } in
    Yields-guard (eq_bytes hs.info_hash c.info_hash) peer_error tt λ same.
      Yields-guard (elem bep10_extensions conn.extensions) peer_error tt λ supported.
        Yields->>=
          (send-Yields (extended_handshake (make local_bep10_registry (some client) none)) conn)
          λ c' (sent, incoming, hash, exts).
            Yields-map (send_have_none-Yields c') λ c'' (sent', incoming', hash', exts'). (
              eq_bytes→eq _ _ same,
              sym (elem-common-bep10_extensions hs.extensions) ∙ supported,
              hash' ∙ hash,
              incoming' ∙ incoming,
              exts' ∙ exts,
              two_counts _ _ _ _ _ (ap (λ e. elem fast e) exts ∙ elem-common-fast hs.extensions)
                  sent sent',
            )

read-Reads :
    (n : ℕ) (c : PeerConnection)
    → Yields
        (λ (b, c').
          (b ≡ take n c.incoming)
          × (n ≤ length c.incoming)
          × (c' ≡ record c { incoming = drop n c.incoming }))
        (λ _. Unit {0})
        (read n c)
unfolding read
read-Reads n c =
    Yields-if (leb n (length c.incoming))
      (λ h. returns (refl, leb→le n (length c.incoming) h, refl)) λ _. raises tt

catch_value_error-Catches {ℓ} :
    {A : Type ℓ} (r : Result A) → Yields (λ a. r ≡ ok a) (λ _. Unit {0}) (catch_value_error r)
unfolding catch_value_error
catch_value_error-Catches (ok a) = returns refl
catch_value_error-Catches (err (unbencode_error m)) = raises tt
catch_value_error-Catches (err value_error) = raises tt
catch_value_error-Catches (err e) = raises tt

abbrev Shaken : PeerConnection → PeerConnection → Type 0
Shaken c c' =
    (hs : Handshake) × (handshake_parse (take handshake_length c.incoming) ≡ ok hs)
    × (hs.info_hash ≡ c.info_hash)
    × (elem bep10_extensions hs.extensions ≡ true)
    × (c'.extensions ≡ common supported_extensions hs.extensions)
    × (handshake_length ≤ length c.incoming)
    × (c'.incoming ≡ drop handshake_length c.incoming)
    × (length c'.outgoing ≡ length c.outgoing + (if elem fast hs.extensions then 3 else 2))

-- The torrent of a connection stays.
pub info_hash-handshake :
    (peer_id client : Bytes) (c : PeerConnection)
    → Yields (λ c'. c'.info_hash ≡ c.info_hash) (λ _. Unit {0}) (handshake peer_id client c)
unfolding handshake
info_hash-handshake peer_id client c = Yields->>= (any_Yields _) λ frame _.
    Yields->>= (send_frame-Yields frame c) λ c₁ (sent, incoming, hash, exts).
      Yields->>= (read-Reads handshake_length c₁) λ (r, c₂) (front, long, left).
        Yields->>= (catch_value_error-Catches (handshake_parse r)) λ hs parsed.
          Yields-map (accept-Yields client hs c₂)
            λ c₃ (same, supported, hash', incoming', exts', sent').
              hash' ∙ (ap (λ k. k.info_hash) left ∙ hash)

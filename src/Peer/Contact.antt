-- ===== src/Peer/Contact.antt =====
-- src/demagnetize/peer/core.py: `Peer.connect` and `Peer.get_info`.
pub mod Raised
use demagnetize.Prelude.{ℕ, ◌≡◌, refl, ◌∙◌, Bool, true, false, [], Bytes, if◌then◌else◌}
use demagnetize.Errors.{
  Error, Result, ok, err, ◌>>=◌, peer_error, os_error, timeout_error, Yields, returns, raises,
  Yields->>=, Yields-if,
}
use demagnetize.Bencode.Value.{Fields, dict, IsCanonical}
use demagnetize.Bencode.Encode.{bencode}
use demagnetize.Peer.Extensions.{empty}
use demagnetize.Peer.Connection.{PeerConnection}
use demagnetize.Peer.Connection.Handshake.{handshake, info_hash-handshake}
use demagnetize.Peer.Metadata.{get_metadata_info}
use demagnetize.Peer.Metadata.Sound.{get_metadata_info-eq-ok}

-- A socket that was opened: what the peer sends until it closes, and how many messages it takes.
pub record Socket : Type 0 where
  pub incoming : Bytes
  pub accepts : ℕ

-- `except TimeoutError` and `except OSError`
abbrev pub is_os_error : Error → Bool
is_os_error os_error = true
is_os_error timeout_error = true
is_os_error _ = false

abbrev pub catch_os_error {ℓ} : {A : Type ℓ} → Result A → Result A
catch_os_error (ok a) = ok a
catch_os_error (err e) = if is_os_error e then err peer_error else err e

-- Peer.connect; `opened` is what opening the socket comes to.
unfoldable pub connect : Bytes → Bytes → Bytes → Result Socket → Result PeerConnection
connect peer_id client info_hash opened = do
  s ← opened
  handshake peer_id client (record {
    info_hash = info_hash;
    extensions = [];
    remote_bep10_registry = empty;
    incoming = s.incoming;
    outgoing = [];
    accepts = s.accepts;
  })

-- Peer.get_info
unfoldable pub get_info :
    (Bytes → Bytes) → ℕ → Bytes → Bytes → Bytes → Result Socket → Result Fields
get_info sha1 depth peer_id client info_hash opened = catch_os_error do
  c ← connect peer_id client info_hash opened
  (info, _) ← get_metadata_info sha1 depth c
  ok info

module _ (sha1 : Bytes → Bytes) where
  abbrev pub IsInfoOf : Bytes → Fields → Type 0
  IsInfoOf info_hash info = (sha1 (bencode (dict info)) ≡ info_hash) × IsCanonical (dict info)

  any_result {ℓ} : {A : Type ℓ} (r : Result A) → Yields (λ a. r ≡ ok a) (λ _. Unit {0}) r
  any_result (ok a) = returns refl
  any_result (err e) = raises tt

  catch_os_error-Yields :
      {P : Fields → Type 0} {r : Result Fields}
      → Yields P (λ _. Unit {0}) r
      → Yields P (λ _. Unit {0}) (catch_os_error r)
  catch_os_error-Yields (returns h) = returns h
  catch_os_error-Yields (raises {e} h) = Yields-if (is_os_error e) (λ _. raises tt) λ _. raises tt

  -- The info that get_info returns is the one that the hash stands for.
  pub get_info-IsInfoOf :
      (depth : ℕ) (peer_id client info_hash : Bytes) (opened : Result Socket)
      → Yields
          (IsInfoOf info_hash)
          (λ _. Unit {0})
          (get_info sha1 depth peer_id client info_hash opened)
  unfolding get_info connect
  get_info-IsInfoOf depth peer_id client info_hash opened = catch_os_error-Yields (
      Yields->>= (Yields->>= (any_result opened) λ s _. info_hash-handshake peer_id client _)
        λ c same. Yields->>= (any_result (get_metadata_info sha1 depth c)) λ (info, c') e.
          let (hash, canonical) = get_metadata_info-eq-ok sha1 depth c c' info e in
          returns (hash ∙ same, canonical))

-- ===== src/Peer/Metadata/Sound.antt =====
-- `get_metadata_info` of src/demagnetize/peer/core.py with any peer.
use demagnetize.Prelude.{
  codes, ℕ, suc, ◌+◌, ◌≡◌, ◌≢◌, refl, sym, ap, ◌∙◌, subst, true, Option, none, some, Bytes, arith,
  length,
}
use demagnetize.Prelude.Int.{ℤ, pos, eq_ℤ}
use demagnetize.Prelude.Order.{eq_bytes, eq_bytes→eq}
use demagnetize.Prelude.Dict.{has_key}
use demagnetize.Errors.{
  Error, Result, ok, err, unbencode_error, value_error, peer_error, out_of_fuel, is_raised,
  is_value_error, Yields, returns, raises, Yields-ok, Yields-err, Yields-if, Yields->>=,
  Yields-guard, Yields-map,
}
use demagnetize.Util.InfoPiecer
use demagnetize.Util.InfoPiecer.{
  InfoPiecer, add_piece, piece_qty, IsFed, new-IsFed, add_piece-IsFed, add_piece-ok,
  length-contents,
}
use demagnetize.Bencode.Value.{get, Value, Fields, int, dict, end, field, IsCanonical}
use demagnetize.Bencode.Encode.{bencode}
use demagnetize.Bencode.Decode.{unbencode}
use demagnetize.Bencode.Sound.{unbencode-eq-ok_iff, unbencode-eq-err}
use demagnetize.Peer.Extensions.{
  empty, Bep10Extension, metadata, eq_extension, Bep10Registry, contains,
}
use demagnetize.Peer.Extended.{extensions, metadata_size, registry_of}
use demagnetize.Peer.Connection.{PeerConnection}
use demagnetize.Peer.Metadata.{
  require, catch_bad_info, info_dict, validate, request_info, get_metadata_info,
}
use demagnetize.Peer.Extensions.{register, register_item, register_items, from_name, from_m}
use demagnetize.Peer.Metadata.Pieces.{IsRaised, await_handshake-Yields, fetch_pieces-Yields}

register-Yields :
    (r : Bep10Registry) (found : Option Bep10Extension) (v : Value)
    → Yields (λ _. Unit {0}) IsRaised (register_item r found v)
unfolding register_item register
register-Yields r (some ext) (int code) =
    Yields-if (has_key eq_ℤ code r.from_code) (λ _. raises refl)
      λ _. Yields-if (has_key eq_extension ext r.to_code) (λ _. raises refl) λ _. returns tt
register-Yields r _ _ = returns tt

register_items-Yields :
    (r : Bep10Registry) (m : Fields) → Yields (λ _. Unit {0}) IsRaised (register_items r m)
unfolding register_items
register_items-Yields r end = returns tt
register_items-Yields r (field k v m) =
    Yields->>= (register-Yields r (from_name k) v) λ r' _. register_items-Yields r' m

registry_of-Yields : (found : Option Value) → Yields (λ _. Unit {0}) IsRaised (registry_of found)
unfolding registry_of from_m
registry_of-Yields none = raises refl
registry_of-Yields (some (dict m)) = register_items-Yields empty m
registry_of-Yields (some _) = raises refl

require-Yields {ℓ} :
    {A : Type ℓ} (found : Option A) → Yields (λ _. Unit {0}) IsRaised (require found)
unfolding require
require-Yields none = raises refl
require-Yields (some a) = returns tt

catch_bad_info-Yields {ℓ} :
    {A : Type ℓ} (r : Result A)
    → ((e : Error) → r ≡ err e → is_value_error e ≡ true)
    → Yields (λ a. r ≡ ok a) IsRaised (catch_bad_info r)
unfolding catch_bad_info
catch_bad_info-Yields (ok a) h = returns refl
catch_bad_info-Yields (err (unbencode_error m)) h = raises refl
catch_bad_info-Yields (err value_error) h = raises refl
catch_bad_info-Yields (err e) h = cc (h _ refl)

info_dict-Yields : (v : Value) → Yields (λ d. v ≡ dict d) IsRaised (info_dict v)
unfolding info_dict
info_dict-Yields (dict d) = returns refl
info_dict-Yields _ = raises refl

module _ (sha1 : Bytes → Bytes) where
  -- The pieces are the canonical encoding of the info, and what was hashed has the torrent's hash.
  validate-Yields :
      (depth : ℕ) (p : InfoPiecer) (c : PeerConnection)
      → Yields
          (λ info.
            (c.info_hash ≡ sha1 p.hashed)
            × (p.contents ≡ bencode (dict info))
            × IsCanonical (dict info))
          IsRaised
          (validate sha1 depth p c)
  unfolding validate
  validate-Yields depth p c =
      Yields-guard (eq_bytes c.info_hash (sha1 p.hashed)) peer_error refl λ good.
        Yields->>=
          (catch_bad_info-Yields (unbencode depth p.contents) (unbencode-eq-err depth p.contents))
          λ v decoded. Yields-map (info_dict-Yields v) λ info e.
            let (encoded, canonical, _) = (unbencode-eq-ok_iff depth p.contents v).0 decoded in
            (eq_bytes→eq _ _ good, encoded ∙ ap bencode e, subst IsCanonical e canonical)

  abbrev Validated : ℤ → PeerConnection → Fields × PeerConnection → Type 0
  Validated size c (info, c') =
      (sha1 (bencode (dict info)) ≡ c.info_hash)
      × IsCanonical (dict info)
      × ((n : ℕ) → size ≡ pos n → length (bencode (dict info)) ≡ n)

  validated :
      (size : ℤ) (p : InfoPiecer) (c c' : PeerConnection) (info : Fields)
      → IsFed p
      → p.index ≡ (InfoPiecer.new size).index + piece_qty (InfoPiecer.new size)
      → p.sizes ≡ (InfoPiecer.new size).sizes
      → p.total_size ≡ size
      → c'.info_hash ≡ c.info_hash
      → c'.info_hash ≡ sha1 p.hashed
      → p.contents ≡ bencode (dict info)
      → IsCanonical (dict info)
      → Validated size c (info, c')
  unfolding InfoPiecer.new piece_qty
  validated size p c c' info fed index sizes total hash good encoded canonical = (
    ap sha1 (sym (fed.fed ∙ encoded)) ∙ (sym good ∙ hash),
    canonical,
    λ n e.
        ap length (sym encoded)
        ∙ length-contents p n fed (omega (arith, index, ap length sizes)) (total ∙ e),
  )

  request_info-Yields :
      (depth : ℕ) (size : ℤ) (c : PeerConnection)
      → Yields (Validated size c) IsRaised (request_info sha1 depth size c)
  unfolding request_info InfoPiecer.new
  request_info-Yields depth size c =
      let new : InfoPiecer = InfoPiecer.new size in
      Yields->>= (fetch_pieces-Yields depth (piece_qty new) 0 new c)
        λ (p, c') (fed, index, sizes, total, hash).
          Yields->>= (validate-Yields depth p c') λ info (good, encoded, canonical). returns (
            validated size p c c' info (fed (new-IsFed size)) index sizes total hash good encoded
              canonical)

  pub get_metadata_info-Yields :
      (depth : ℕ) (c : PeerConnection)
      → Yields
          (λ (info, c'). (size : ℤ) × Validated size c (info, c'))
          IsRaised
          (get_metadata_info sha1 depth c)
  unfolding get_metadata_info extensions
  get_metadata_info-Yields depth c =
      Yields->>= (await_handshake-Yields depth (suc (length c.incoming)) c (omega arith))
        λ (handshake, c') same.
          Yields->>= (registry_of-Yields (get handshake.contents (codes "m"))) λ registry _.
            Yields-guard (contains registry metadata) peer_error refl λ _.
              Yields->>= (require-Yields (metadata_size handshake)) λ size _.
                Yields-map (request_info-Yields depth size _)
                  λ (info, c'') (hash, canonical, len). (size, (hash ∙ same, canonical, len))

  -- The info that `get_metadata_info` returns is what the torrent's hash stands for: its encoding has
  -- the digest that the connection was made for, with any digest function, whatever the peer sent.
  -- Its keys are in order at every level, so that encoding it again gives the bytes that were hashed.
  pub get_metadata_info-eq-ok :
      (depth : ℕ) (c c' : PeerConnection) (info : Fields)
      → get_metadata_info sha1 depth c ≡ ok (info, c')
      → (sha1 (bencode (dict info)) ≡ c.info_hash) × IsCanonical (dict info)
  get_metadata_info-eq-ok depth c c' info h =
      let (_, (hash, canonical, _)) = Yields-ok (get_metadata_info-Yields depth c) h in
      (hash, canonical)

  -- Once a peer has declared the size of the info, the info that is returned has just that many bytes
  -- in its encoding, and the torrent's digest.
  pub request_info-eq-ok :
      (depth n : ℕ) (c c' : PeerConnection) (info : Fields)
      → request_info sha1 depth (pos n) c ≡ ok (info, c')
      → (length (bencode (dict info)) ≡ n) × (sha1 (bencode (dict info)) ≡ c.info_hash)
  request_info-eq-ok depth n c c' info h =
      let (hash, _, len) = Yields-ok (request_info-Yields depth (pos n) c) h in (len n refl, hash)

  -- `get_metadata_info` ends on every stream of a peer: it returns an info or raises an exception of
  -- the source's, and none of its loops stops for want of fuel.
  pub get_metadata_info-eq-err :
      (depth : ℕ) (c : PeerConnection) (e : Error)
      → get_metadata_info sha1 depth c ≡ err e
      → e ≢ out_of_fuel
  get_metadata_info-eq-err depth c e h same =
      cc (Yields-err (get_metadata_info-Yields depth c) h, ap is_raised same)

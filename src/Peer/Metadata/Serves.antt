-- ===== src/Peer/Metadata/Serves.antt =====
-- `get_metadata_info` of src/demagnetize/peer/core.py with a peer that serves an info.
use demagnetize.Prelude.{
  ℕ, zero, suc, ◌+◌, ◌^◌, ◌≤◌, ◌<◌, ◌≡◌, refl, sym, ap, ◌∙◌, true, false, some, List, [], ◌∷◌, ◌++◌,
  Bytes, arith, length, drop, leb, ◌==◌, append_assoc, append-nil, Bool-cases, inl, inr,
}
use demagnetize.Prelude.Int.{ℤ, pos, eq_ℤ_iff}
use demagnetize.Prelude.Order.{eq_bytes, eq_bytes_iff}
use demagnetize.Prelude.Dict.{lookup, has_key, lookup-none}
use demagnetize.Errors.{ok}
use demagnetize.Util.InfoPiecer
use demagnetize.Util.InfoPiecer.{InfoPiecer, get_or, add_piece, piece_qty, sizes_of}
use demagnetize.Bencode.Value.{Fields, dict, IsCanonical, nesting}
use demagnetize.Bencode.Encode.{bencode}
use demagnetize.Bencode.RoundTrip.{unbencode-bencode}
use demagnetize.Peer.Extensions.Registry.{eq_extension_iff}
use demagnetize.Peer.Extensions.{metadata, eq_extension, Bep10Registry, contains}
use demagnetize.Peer.Extended.{ExtendedHandshake, extensions, metadata_size}
use demagnetize.Peer.Wire.{extended_handshake, bep9}
use demagnetize.Peer.Connection.{PeerConnection}
use demagnetize.Peer.Metadata.{
  is_ignored, require, add_or_fail, accept_piece, as_data, fetch_pieces, catch_bad_info, info_dict,
  validate, request_info, get_metadata_info,
}
use demagnetize.Peer.Metadata.Frames.{IsFrame, data_message, send-request_message}
use demagnetize.Peer.Metadata.Chats.{
  Chatter, stream_of, Chats, is_early, await_piece-Chats, await_handshake-Chats,
}

-- The pieces from number `i` on, one for each size, of an info of `size` bytes: `blob` is what they
-- make up, and `stream` what the peer sends, with messages that are ignored in between.
abbrev pub Serves : ℕ → ℕ → ℕ → List ℕ → Bytes → Bytes → Type 0
Serves depth size i [] blob stream = blob ≡ []
Serves depth size i (n ∷ ns) blob stream =
    (chatter : Chatter) × (frame : Bytes) × (chunk : Bytes) × (blob' : Bytes) × (stream' : Bytes)
    × (blob ≡ chunk ++ blob')
    × (stream ≡ stream_of chatter ++ (frame ++ stream'))
    × (length chunk ≡ n)
    × Chats is_ignored depth chatter
    × IsFrame depth frame (bep9 (data_message size i chunk))
    × Serves depth size (i + 1) ns blob' stream'

-- All pieces are in.
abbrev fill : InfoPiecer → ℕ → Bytes → InfoPiecer
fill p n blob = record p {
  contents = p.contents ++ blob;
  hashed = p.hashed ++ blob;
  index = p.index + n;
}

drop-next :
    (i n : ℕ) (xs ns : List ℕ)
    → drop i xs ≡ n ∷ ns
    → (i < length xs) × (get_or xs i 0 ≡ n) × (drop (suc i) xs ≡ ns)
drop-next zero n [] ns h = absurd (cc)
drop-next (suc i) n [] ns h = absurd (cc)
drop-next zero n (x ∷ xs) ns h = (omega arith, cc, cc)
drop-next (suc i) n (x ∷ xs) ns h =
    let (below, at_i, next) = drop-next i n xs ns h in (omega arith, at_i, next)

accept_piece-data_message :
    (size : ℕ) (p : InfoPiecer) (chunk : Bytes) (ns : List ℕ)
    → p.total_size ≡ pos size
    → drop p.index p.sizes ≡ length chunk ∷ ns
    → (accept_piece p.index (data_message size p.index chunk) p ≡ ok (fill p 1 chunk))
      × (drop (suc p.index) p.sizes ≡ ns)
unfolding accept_piece add_or_fail add_piece
accept_piece-data_message size p chunk ns total next =
    let (below, at_i, more) = drop-next p.index (length chunk) p.sizes ns next in
    let short : leb (length p.sizes) p.index ≡ false = ground (arith, below) in
    let same : (length chunk == length chunk) ≡ true = ground arith in
    (
      cc (
        total,
        (eq_ℤ_iff (pos p.index) (pos p.index)).1 refl,
        (eq_ℤ_iff (pos size) (pos size)).1 refl,
        short,
        at_i,
        same,
      ),
      more,
    )

fill-fill : (p : InfoPiecer) (n : ℕ) (a b : Bytes) → fill (fill p 1 a) n b ≡ fill p (suc n) (a ++ b)
fill-fill p n a b =
    let index : (p.index + 1) + n ≡ p.index + suc n = omega arith in
    cc (append_assoc p.contents a b, append_assoc p.hashed a b, index)

fill-nothing : (p : InfoPiecer) (b : Bytes) → b ≡ [] → p ≡ fill p 0 b
fill-nothing p b e =
    let index : p.index + 0 ≡ p.index = omega arith in
    cc (e, append-nil p.contents, append-nil p.hashed, index)

-- From a peer that serves the pieces they are all fetched, if it knows the extension by a code that is
-- a byte and takes as many requests as there are pieces.
fetch_pieces-Serves :
    (depth size code : ℕ) (ns : List ℕ) (p : InfoPiecer) (c : PeerConnection) (blob : Bytes)
    → p.total_size ≡ pos size
    → drop p.index p.sizes ≡ ns
    → Serves depth size p.index ns blob c.incoming
    → lookup eq_extension metadata c.remote_bep10_registry.to_code ≡ some (pos code)
    → code < 256
    → p.index + length ns < 2 ^ 31
    → length ns ≤ c.accepts
    → (c' : PeerConnection) × (fetch_pieces depth (length ns) p.index p c
        ≡ ok (fill p (length ns) blob, c'))
      × (c'.info_hash ≡ c.info_hash)
unfolding fetch_pieces as_data
fetch_pieces-Serves depth size code [] p c blob total next serves to byte small more =
    (c, ap (λ q. ok (q, c)) (fill-nothing p blob serves), refl)
fetch_pieces-Serves depth size code (n ∷ ns) p c blob total next serves to byte small more =
    let (chatter, frame, chunk, blob', stream', whole, stream, len, chats, is, rest) = serves in
    let (c₁, sent, is_sent) =
      send-request_message p.index code c to byte (omega (arith, small)) (omega (arith, more)) in
    let (accepted, next') =
      accept_piece-data_message size p chunk ns total (next ∙ ap (λ k. k ∷ ns) (sym len)) in
    let awaited =
      await_piece-Chats depth (suc (length c₁.incoming)) p.index p c₁ chatter frame stream'
        (data_message size p.index chunk) chats is refl (is_sent.same_incoming ∙ stream)
        (omega arith) in
    let suc_index : p.index + 1 ≡ suc p.index = omega arith in
    let (c₃, fetched, hash) =
      fetch_pieces-Serves depth size code ns (fill p 1 chunk) (record c₁ { incoming = stream' })
        blob' total (ap (λ k. drop k p.sizes) suc_index ∙ next') rest
        (ap (λ r. lookup eq_extension metadata r.to_code) is_sent.same_registry ∙ to) byte
        (omega (arith, small)) (omega (arith, more, is_sent.left)) in
    (
      c₃,
      cc (sent, awaited, accepted, fetched, fill-fill p (length ns) chunk blob', whole),
      hash ∙ is_sent.same_hash,
    )

-- The registry has an extension that it has a code for.
contains-lookup :
    (r : Bep10Registry) (code : ℤ)
    → lookup eq_extension metadata r.to_code ≡ some code
    → contains r metadata ≡ true
unfolding contains
contains-lookup r code e = elim (Bool-cases (has_key eq_extension metadata r.to_code)) [
  | inl found ↦ found
  | inr missing ↦
      absurd (cc (lookup-none eq_extension eq_extension_iff metadata r.to_code missing, e))
]

-- What a peer must do for its info to be downloaded: send an extended handshake that declares the info's
-- size and a code for the extension, and then the pieces. It may send messages that are ignored in
-- between. `code` is the extension's code, `handshake` the first extended handshake, `early` what comes
-- before it, `stream` what comes behind it.
pub record IsServed (depth : ℕ) (info : Fields) (c : PeerConnection) : Type 0 where
  pub early : Chatter
  pub frame : Bytes
  pub handshake : ExtendedHandshake
  pub stream : Bytes
  pub registry : Bep10Registry
  pub code : ℕ
  pub chats : Chats is_early depth early
  pub is_frame : IsFrame depth frame (extended_handshake handshake)
  pub incoming : c.incoming ≡ stream_of early ++ (frame ++ stream)
  pub registered : extensions handshake ≡ ok registry
  pub known : lookup eq_extension metadata registry.to_code ≡ some (pos code)
  pub byte_code : code < 256
  pub size : metadata_size handshake ≡ some (pos (length (bencode (dict info))))
  pub serves :
      Serves depth
        (length (bencode (dict info)))
        0
        (sizes_of (pos (length (bencode (dict info)))))
        (bencode (dict info))
        stream

module _ (sha1 : Bytes → Bytes) where
  validate-bencode :
      (depth : ℕ) (info : Fields) (p : InfoPiecer) (c : PeerConnection)
      → IsCanonical (dict info)
      → nesting (dict info) ≤ depth
      → p.contents ≡ bencode (dict info)
      → p.hashed ≡ bencode (dict info)
      → c.info_hash ≡ sha1 (bencode (dict info))
      → validate sha1 depth p c ≡ ok info
  unfolding validate catch_bad_info info_dict
  validate-bencode depth info p c canonical deep contents hashed hash =
      let good : eq_bytes c.info_hash (sha1 p.hashed) ≡ true =
        (eq_bytes_iff _ _).1 (hash ∙ ap sha1 (sym hashed)) in
      cc (good, contents, unbencode-bencode (dict info) depth canonical deep)

  -- From a peer that serves an info whose digest is the torrent's hash, `get_metadata_info` downloads
  -- just that info, if the interpreter takes its nesting, if it has fewer than 2 ^ 31 pieces, and if
  -- the peer takes a request for each of them.
  pub get_metadata_info-IsServed :
      (depth : ℕ) (info : Fields) (c : PeerConnection)
      → IsCanonical (dict info)
      → nesting (dict info) ≤ depth
      → c.info_hash ≡ sha1 (bencode (dict info))
      → IsServed depth info c
      → length (sizes_of (pos (length (bencode (dict info))))) < 2 ^ 31
      → length (sizes_of (pos (length (bencode (dict info))))) ≤ c.accepts
      → (c' : PeerConnection) × (get_metadata_info sha1 depth c ≡ ok (info, c'))
  unfolding get_metadata_info request_info InfoPiecer.new piece_qty require
  get_metadata_info-IsServed depth info c canonical deep hash served small more =
      let shaken = record c { incoming = served.stream; remote_bep10_registry = served.registry } in
      let n = length (bencode (dict info)) in
      let (c', fetched, same) =
        fetch_pieces-Serves depth n served.code (sizes_of (pos n)) (InfoPiecer.new (pos n)) shaken
          (bencode (dict info)) refl refl served.serves served.known served.byte_code
          (omega (arith, small)) more in
      (
        c',
        cc (
          await_handshake-Chats depth (suc (length c.incoming)) c served.early served.frame
              served.stream served.handshake served.chats served.is_frame served.incoming
              (omega arith),
          served.registered,
          contains-lookup served.registry (pos served.code) served.known,
          served.size,
          fetched,
          validate-bencode depth info
              (fill (InfoPiecer.new (pos n)) (length (sizes_of (pos n))) (bencode (dict info))) c'
              canonical deep refl refl (same ∙ hash),
        ),
      )

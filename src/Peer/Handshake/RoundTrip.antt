-- ===== src/Peer/Handshake/RoundTrip.antt =====
-- `Handshake.parse` of src/demagnetize/peer/messages.py on what `Handshake.__bytes__` wrote.
use demagnetize.Prelude.{
  ℕ, ◌^◌, ◌<◌, ◌≡◌, refl, sym, ap, ◌∙◌, true, false, List, [], ◌∷◌, ◌++◌, Bytes, All, arith, length,
  take, drop, replicate, ◌==◌, take-append, drop-append, length-append_bytes, append_assoc, ◌≤◌,
}
use demagnetize.Prelude.Order.{eq_bytes_self}
use demagnetize.Prelude.BigEndian.{from_bytes, big_endian, length-big_endian, from_bytes-big_endian}
use demagnetize.Prelude.Bits.{
  set_bits, set_bits-lt, bits_below, elem, elem-bits_below, test_bit-set_bits, test_bit_zero,
}
use demagnetize.Errors.{ok, overflow_error}
use demagnetize.Struct.{encode_uint_lem}
use demagnetize.Peer.Handshake.{
  header, Handshake, handshake_bytes, info_hash_from_bytes, handshake_parse,
}

elem_large : (i : ℕ) (is : List ℕ) → All (λ j. j < 64) is → 64 ≤ i → elem i is ≡ false
elem_large i [] all h = refl
elem_large i (j ∷ is) (below, all) h = ground (arith, elem_large i is all h)

-- The set of the bits that were put in.
extensions-elem :
    (is : List ℕ) (i : ℕ)
    → All (λ j. j < 64) is
    → elem i (bits_below 64 (set_bits 0 is)) ≡ elem i is
extensions-elem is i all = ground (
  arith,
  elem-bits_below 64 (set_bits 0 is) i,
  test_bit-set_bits 0 i is,
  test_bit_zero i,
  elem_large i is all,
)

-- Four parts of known lengths, taken apart again.
handshake_parse_parts :
    (exts info_hash peer_id : Bytes)
    → length exts ≡ 8
    → length info_hash ≡ 20
    → length peer_id ≡ 20
    → handshake_parse (header ++ (exts ++ (info_hash ++ peer_id)))
      ≡ ok (record {
        extensions = bits_below 64 (from_bytes exts);
        info_hash = info_hash;
        peer_id = peer_id;
      })
unfolding handshake_parse info_hash_from_bytes
handshake_parse_parts exts info_hash peer_id e h p =
    let rest = exts ++ (info_hash ++ peer_id) in
    let tail : drop 28 rest ≡ peer_id =
      ap (λ b. drop 28 b) (sym (append_assoc exts info_hash peer_id))
      ∙ drop-append 28 (exts ++ info_hash) peer_id
          (omega (arith, length-append_bytes exts info_hash)) in
    let whole : (length (header ++ rest) == 68) ≡ true = ground (
      arith,
      length-append_bytes exts (info_hash ++ peer_id),
      length-append_bytes info_hash peer_id,
    ) in
    let full : (length info_hash == 20) ≡ true = ground arith in
    let middle : take 20 (drop 8 rest) ≡ info_hash =
      ap (λ b. take 20 b) (drop-append 8 exts (info_hash ++ peer_id) e)
      ∙ take-append 20 info_hash peer_id h in
    cc
      (whole, eq_bytes_self header, take-append 8 exts (info_hash ++ peer_id) e, middle, full, tail)

-- A handshake is put on the wire and parsed back with the same torrent, peer and set of extensions, if
-- its extensions are bits of 64, and its info hash and peer ID have the 20 bytes that they should.
pub handshake_parse-handshake_bytes :
    (h : Handshake)
    → All (λ i. i < 64) h.extensions
    → length h.info_hash ≡ 20
    → length h.peer_id ≡ 20
    → (blob : Bytes) × (handshake_bytes h ≡ ok blob)
      × (length blob ≡ 68)
      × (h' : Handshake) × (handshake_parse blob ≡ ok h')
      × (h'.info_hash ≡ h.info_hash)
      × (h'.peer_id ≡ h.peer_id)
      × ((i : ℕ) → elem i h'.extensions ≡ elem i h.extensions)
unfolding handshake_bytes
handshake_parse-handshake_bytes h all hash peer =
    let bits = set_bits 0 h.extensions in
    let fits : bits < 256 ^ 8 = set_bits-lt 64 0 h.extensions (omega arith) all in
    let head = big_endian 8 bits in
    let padded : take 20 (h.peer_id ++ replicate 20 0) ≡ h.peer_id =
      take-append 20 h.peer_id _ peer in
    (
      header ++ (head ++ (h.info_hash ++ h.peer_id)),
      rw (encode_uint_lem overflow_error 8 bits fits, padded) refl,
      omega (
        arith,
        length-append_bytes head (h.info_hash ++ h.peer_id),
        length-append_bytes h.info_hash h.peer_id,
        length-big_endian 8 bits,
      ),
      _,
      handshake_parse_parts head h.info_hash h.peer_id (length-big_endian 8 bits) hash peer,
      refl,
      refl,
      λ i.
          ap (λ n. elem i (bits_below 64 n)) (from_bytes-big_endian 8 bits fits)
          ∙ extensions-elem h.extensions i all,
    )

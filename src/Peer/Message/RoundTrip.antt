-- ===== src/Peer/Message/RoundTrip.antt =====
-- `Message.parse` of src/demagnetize/peer/messages.py on what `__bytes__` wrote.
use demagnetize.Prelude.{
  append-nil, le→leb, ℕ, ◌+◌, ◌^◌, ◌<◌, ◌≡◌, refl, sym, ap, ◌∙◌, [], ◌∷◌, ◌++◌, append_assoc, arith,
  Bytes, length, take, lt→ltb, length-append_bytes, take-append, drop-append,
}
use demagnetize.Prelude.Int.{pos, negsuc}
use demagnetize.Prelude.BigEndian.{big_endian, from_bytes, length-big_endian, from_bytes-big_endian}
use demagnetize.Errors.{Error, ok, struct_error, overflow_error}
use demagnetize.Struct.{to_bytes, byte, encode_uint, encode_uint_lem}
use demagnetize.Peer.Message.{
  Message, choke, unchoke, interested, not_interested, have_all, have_none, have, bitfield, request,
  piece, cancel, port, reject, allowed_fast, suggest, extended, type_of, pack2, pack3, to_payload,
  message_bytes, uint32_at, of_length, klasses, from_klass, parse_body, parse, index_from_payload,
  block_from_payload, piece_from_payload, extended_from_payload, port_from_payload,
}

-- The fields have a place on the wire, and the payload's length too.
abbrev pub Fits : Message → Type 0
Fits (have index) = index < 256 ^ 4
Fits (bitfield payload) = 1 + length payload < 256 ^ 4
Fits (request index begin len) = (index < 256 ^ 4) × (begin < 256 ^ 4) × (len < 256 ^ 4)
Fits (piece index begin block) =
    (index < 256 ^ 4) × (begin < 256 ^ 4) × (9 + length block < 256 ^ 4)
Fits (cancel index begin len) = (index < 256 ^ 4) × (begin < 256 ^ 4) × (len < 256 ^ 4)
Fits (port p) = p < 256 ^ 2
Fits (reject index begin len) = (index < 256 ^ 4) × (begin < 256 ^ 4) × (len < 256 ^ 4)
Fits (allowed_fast index) = index < 256 ^ 4
Fits (suggest index) = index < 256 ^ 4
Fits (extended (pos id) payload) = (id < 256) × (2 + length payload < 256 ^ 4)
Fits (extended (negsuc id) payload) = ⊥
Fits _ = Unit

-- A payload that is encoded, whose length has a place on the wire, and from which the class reads
-- the message back.
abbrev Carries : Message → Type 0
Carries m =
    (p : Bytes) × (to_payload m ≡ ok p)
    × (1 + length p < 256 ^ 4)
    × (from_klass klasses (type_of m) p ≡ ok m)

index_Carries :
    (w n : ℕ) (e : Error)
    → n < 256 ^ w
    → (b : Bytes) × (encode_uint e w n ≡ ok b) × (length b ≡ w) × (from_bytes b ≡ n)
index_Carries w n e h =
    (big_endian w n, encode_uint_lem e w n h, length-big_endian w n, from_bytes-big_endian w n h)

uint32_at-big_endian :
    (offset n : ℕ) (before after : Bytes)
    → length before ≡ offset
    → n < 256 ^ 4
    → uint32_at offset (before ++ (big_endian 4 n ++ after)) ≡ n
uint32_at-big_endian offset n before after h fits =
    rw (drop-append offset before _ h, take-append 4 (big_endian 4 n) after (length-big_endian 4 n))
      (from_bytes-big_endian 4 n fits)

-- The three numbers of a block, packed.
three_Carries :
    (a b c : ℕ)
    → (a < 256 ^ 4) × (b < 256 ^ 4) × (c < 256 ^ 4)
    → (p : Bytes) × (pack3 a b c ≡ ok p)
      × (length p ≡ 12)
      × (uint32_at 0 p ≡ a)
      × (uint32_at 4 p ≡ b)
      × (uint32_at 8 p ≡ c)
unfolding pack3
three_Carries a b c (ha, hb, hc) =
    let x : Bytes = big_endian 4 a in
    let y : Bytes = big_endian 4 b in
    let z : Bytes = big_endian 4 c in
    let lx : length x ≡ 4 = length-big_endian 4 a in
    let ly : length y ≡ 4 = length-big_endian 4 b in
    let lxy : length (x ++ y) ≡ 8 = omega (arith, length-append_bytes x y) in
    (
      x ++ (y ++ z),
      rw (
        encode_uint_lem struct_error 4 a ha,
        encode_uint_lem struct_error 4 b hb,
        encode_uint_lem struct_error 4 c hc,
      ),
      omega (arith, length-append_bytes x (y ++ z), length-append_bytes y z, length-big_endian 4 c),
      uint32_at-big_endian 0 a [] (y ++ z) refl ha,
      uint32_at-big_endian 4 b x z lx hb,
      ap (uint32_at 8)
            (ap (λ t. x ++ (y ++ t)) (sym (append-nil z)) ∙ sym (append_assoc x y (z ++ [])))
          ∙ uint32_at-big_endian 8 c (x ++ y) [] lxy hc,
    )

-- The classes with one index, and those with a block, written by their three laws.
index_class_Carries :
    (klass : ℕ → Message) (n : ℕ)
    → to_payload (klass n) ≡ to_bytes 4 n
    → ((p : Bytes) → from_klass klasses (type_of (klass n)) p ≡ index_from_payload klass p)
    → n < 256 ^ 4
    → Carries (klass n)
unfolding of_length index_from_payload
index_class_Carries klass n written read h =
    let (b, e, len, v) = index_Carries 4 n overflow_error h in
    (b, written ∙ e, omega arith, read b ∙ rw (len, v))

block_class_Carries :
    (klass : ℕ → ℕ → ℕ → Message) (a b c : ℕ)
    → to_payload (klass a b c) ≡ pack3 a b c
    → ((p : Bytes) → from_klass klasses (type_of (klass a b c)) p ≡ block_from_payload klass p)
    → (a < 256 ^ 4) × (b < 256 ^ 4) × (c < 256 ^ 4)
    → Carries (klass a b c)
unfolding of_length block_from_payload
block_class_Carries klass a b c written read h =
    let (p, e, len, ea, eb, ec) = three_Carries a b c h in
    (p, written ∙ e, omega arith, read p ∙ rw (len, ea, eb, ec))

piece_Carries :
    (a b : ℕ) (block : Bytes)
    → (a < 256 ^ 4) × (b < 256 ^ 4) × (9 + length block < 256 ^ 4)
    → Carries (piece a b block)
unfolding to_payload from_klass klasses type_of piece_from_payload pack2
piece_Carries a b block (ha, hb, hl) =
    let x : Bytes = big_endian 4 a in
    let y : Bytes = big_endian 4 b in
    let lx : length x ≡ 4 = length-big_endian 4 a in
    let lxy : length (x ++ y) ≡ 8 = omega (arith, length-append_bytes x y, length-big_endian 4 b) in
    let regroup : (x ++ y) ++ block ≡ x ++ (y ++ block) = append_assoc x y block in
    (
      (x ++ y) ++ block,
      rw (encode_uint_lem struct_error 4 a ha, encode_uint_lem struct_error 4 b hb),
      omega (arith, length-append_bytes (x ++ y) block),
      rw (
        le→leb 8 (length ((x ++ y) ++ block)) (omega (arith, length-append_bytes (x ++ y) block)),
        drop-append 8 (x ++ y) block lxy,
        ap (uint32_at 0) regroup ∙ uint32_at-big_endian 0 a [] (y ++ block) refl ha,
        ap (uint32_at 4) regroup ∙ uint32_at-big_endian 4 b x block lx hb,
      ),
    )

Fits-Carries : (m : Message) → Fits m → Carries m
unfolding to_payload from_klass klasses type_of of_length port_from_payload extended_from_payload
    byte
Fits-Carries (have n) h = index_class_Carries have n refl (λ p. refl) h
Fits-Carries (bitfield p) h = (p, refl, h, refl)
Fits-Carries (request a b c) h = block_class_Carries request a b c refl (λ p. refl) h
Fits-Carries (piece a b block) h = piece_Carries a b block h
Fits-Carries (cancel a b c) h = block_class_Carries cancel a b c refl (λ p. refl) h
Fits-Carries (port n) h =
    let (b, e, len, v) = index_Carries 2 n overflow_error h in (b, e, omega arith, rw (len, v))
Fits-Carries (reject a b c) h = block_class_Carries reject a b c refl (λ p. refl) h
Fits-Carries (allowed_fast n) h = index_class_Carries allowed_fast n refl (λ p. refl) h
Fits-Carries (suggest n) h = index_class_Carries suggest n refl (λ p. refl) h
Fits-Carries (extended (pos id) p) (h, len) = (id ∷ p, rw (lt→ltb id 256 h), omega arith, refl)
Fits-Carries (extended (negsuc id) p) h = elim h [ ]
Fits-Carries choke h = ([], refl, omega arith, refl)
Fits-Carries unchoke h = ([], refl, omega arith, refl)
Fits-Carries interested h = ([], refl, omega arith, refl)
Fits-Carries not_interested h = ([], refl, omega arith, refl)
Fits-Carries have_all h = ([], refl, omega arith, refl)
Fits-Carries have_none h = ([], refl, omega arith, refl)

-- Every message whose fields have a place on the wire is put there, behind its length, and is parsed
-- back.
pub parse-message_bytes :
    (m : Message)
    → Fits m
    → (blob : Bytes) × (message_bytes m ≡ ok blob)
      × (from_bytes (take 4 blob) + 4 ≡ length blob)
      × (parse blob ≡ ok m)
unfolding message_bytes parse parse_body
parse-message_bytes m h =
    let (p, e, fits, back) = Fits-Carries m h in
    let head : Bytes = big_endian 4 (1 + length p) in
    let lh : length head ≡ 4 = length-big_endian 4 (1 + length p) in
    (
      head ++ type_of m ∷ p,
      rw (e, encode_uint_lem overflow_error 4 (1 + length p) fits),
      rw (take-append 4 head (type_of m ∷ p) lh, from_bytes-big_endian 4 (1 + length p) fits)
          (omega (arith, length-append_bytes head (type_of m ∷ p))),
      rw (drop-append 4 head (type_of m ∷ p) lh) back,
    )

-- ===== src/Peer/Message/Parsed.antt =====
-- `__bytes__` of the messages of src/demagnetize/peer/messages.py that were parsed.
use demagnetize.Prelude.{
  ℕ, ◌+◌, ◌≤◌, ◌≡◌, refl, ap, ◌∙◌, Bool, true, false, List, [], ◌∷◌, ◌++◌, append_assoc, arith,
  Bytes, IsBytes, All, All-take, All-drop, length, take, drop, leb, leb→le, lt→ltb, ◌==◌, ==_iff,
  take-append-drop, take-append-drop_at, length-take, length-drop, take_all, Bool-cases, inl, inr,
}
use demagnetize.Prelude.Int.{pos}
use demagnetize.Prelude.BigEndian.{from_bytes}
use demagnetize.Errors.{Error, Result, ok, err, struct_error, overflow_error}
use demagnetize.Struct.{to_bytes, byte, encode_uint, encode_uint-from_bytes}
use demagnetize.Peer.Message.{
  Message, choke, unchoke, interested, not_interested, have_all, have_none, have, bitfield, request,
  piece, cancel, reject, allowed_fast, suggest, extended, type_of, is_empty_message, pack2, pack3,
  to_payload, message_bytes, uint32_at, of_length, klasses, from_klass, parse_body, parse,
  piece_from_payload, extended_from_payload, port_from_payload, index_from_payload,
  block_from_payload,
}

-- What a class reads from a payload is one of its messages, and is written as that payload. The
-- empty messages are left out: they pass over a payload.
abbrev Restores : ℕ × (Bytes → Result Message) → Type 0
Restores (code, from_payload) =
    (p : Bytes) (m : Message)
    → IsBytes p
    → from_payload p ≡ ok m
    → is_empty_message m ≡ false
    → (type_of m ≡ code) × (to_payload m ≡ ok p)

of_length-ok :
    (n : ℕ) (p : Bytes) (m m' : Message) → of_length n p m ≡ ok m' → (length p ≡ n) × (m ≡ m')
unfolding of_length
of_length-ok n p m m' h = ground arith

-- A number read from a payload is written as the bytes it was read from.
word :
    (offset : ℕ) (p : Bytes) (e : Error)
    → IsBytes p
    → offset + 4 ≤ length p
    → encode_uint e 4 (uint32_at offset p) ≡ ok (take 4 (drop offset p))
word offset p e h fits =
    encode_uint-from_bytes e 4 _
      (omega (arith, length-take 4 (drop offset p), length-drop offset p))
      (All-take _ 4 (drop offset p) (All-drop _ offset p h))

three_Restores :
    (p : Bytes)
    → IsBytes p
    → length p ≡ 12
    → pack3 (uint32_at 0 p) (uint32_at 4 p) (uint32_at 8 p) ≡ ok p
unfolding pack3
three_Restores p h len = rw (
  word 0 p struct_error h (omega arith),
  word 4 p struct_error h (omega arith),
  word 8 p struct_error h (omega arith),
  take_all 4 (drop 8 p) (omega (arith, length-drop 8 p)),
  take-append-drop_at 4 4 8 p refl,
  take-append-drop 4 p,
)

two_Restores :
    (p : Bytes)
    → IsBytes p
    → 8 ≤ length p
    → pack2 (uint32_at 0 p) (uint32_at 4 p) ≡ ok (take 4 p ++ take 4 (drop 4 p))
unfolding pack2
two_Restores p h len =
    rw (word 0 p struct_error h (omega arith), word 4 p struct_error h (omega arith))

rebuild : (p : Bytes) → (take 4 p ++ take 4 (drop 4 p)) ++ drop 8 p ≡ p
rebuild p =
    append_assoc (take 4 p) (take 4 (drop 4 p)) (drop 8 p)
    ∙ (ap (λ t. take 4 p ++ t) (take-append-drop_at 4 4 8 p refl) ∙ take-append-drop 4 p)

-- The classes with one index, and those with a block, by what they write.
index_class_Restores :
    (klass : ℕ → Message) (code : ℕ)
    → ((n : ℕ) → type_of (klass n) ≡ code)
    → ((n : ℕ) → to_payload (klass n) ≡ to_bytes 4 n)
    → Restores (code, index_from_payload klass)
unfolding index_from_payload
index_class_Restores klass code typed written p m h e ne =
    let (len, same) = of_length-ok 4 p _ m e in
    rw (← same) (typed _, written _ ∙ encode_uint-from_bytes overflow_error 4 p len h)

block_class_Restores :
    (klass : ℕ → ℕ → ℕ → Message) (code : ℕ)
    → ((a b c : ℕ) → type_of (klass a b c) ≡ code)
    → ((a b c : ℕ) → to_payload (klass a b c) ≡ pack3 a b c)
    → Restores (code, block_from_payload klass)
unfolding block_from_payload
block_class_Restores klass code typed written p m h e ne =
    let (len, same) = of_length-ok 12 p _ m e in
    rw (← same) (typed _ _ _, written _ _ _ ∙ three_Restores p h len)

piece_Restores : Restores (7, piece_from_payload)
unfolding piece_from_payload type_of to_payload
piece_Restores p m h e ne = elim (Bool-cases (leb 8 (length p))) [
  | inl long ↦
      (let same : ok (piece (uint32_at 0 p) (uint32_at 4 p) (drop 8 p)) ≡ ok m = rw long at e in
        let same' : m ≡ piece (uint32_at 0 p) (uint32_at 4 p) (drop 8 p) = cc in
        rw same' (refl, rw (two_Restores p h (leb→le 8 (length p) long), rebuild p)))
  | inr short ↦ (let e' = rw short at e in cc)
]

port_Restores : Restores (9, port_from_payload)
unfolding port_from_payload type_of to_payload
port_Restores p m h e ne =
    let (len, same) = of_length-ok 2 p _ m e in
    rw (← same) (refl, encode_uint-from_bytes overflow_error 2 p len h)

bitfield_Restores : Restores (5, λ p. ok (bitfield p))
unfolding type_of to_payload
bitfield_Restores p m h e ne = let same : m ≡ bitfield p = cc in rw same (refl, refl)

extended_Restores : Restores (20, extended_from_payload)
unfolding extended_from_payload type_of to_payload byte
extended_Restores [] m h e ne = cc
extended_Restores (b ∷ p) m (hb, h) e ne =
    let same : m ≡ extended (pos b) p = cc in rw same (refl, rw (lt→ltb b 256 hb))

-- A class of messages with no payload.
abbrev is_empty : Result Message → Bool
is_empty (ok m) = is_empty_message m
is_empty (err e) = false

empty_Restores :
    (code : ℕ) (m₀ : Message) → is_empty_message m₀ ≡ true → Restores (code, λ _. ok m₀)
empty_Restores code m₀ h₀ p m h e ne =
    let same : is_empty_message m₀ ≡ is_empty_message m = ap is_empty e in cc

klasses-Restores : All Restores klasses
unfolding klasses type_of to_payload is_empty_message
klasses-Restores = (
  index_class_Restores have 4 (λ n. refl) (λ n. refl),
  (
    bitfield_Restores,
    (
      block_class_Restores request 6 (λ a b c. refl) (λ a b c. refl),
      (
        piece_Restores,
        (
          block_class_Restores cancel 8 (λ a b c. refl) (λ a b c. refl),
          (
            port_Restores,
            (
              block_class_Restores reject 0x10 (λ a b c. refl) (λ a b c. refl),
              (
                index_class_Restores allowed_fast 0x11 (λ n. refl) (λ n. refl),
                (
                  index_class_Restores suggest 0x0D (λ n. refl) (λ n. refl),
                  (
                    extended_Restores,
                    (
                      empty_Restores 0 choke refl,
                      (
                        empty_Restores 1 unchoke refl,
                        (
                          empty_Restores 2 interested refl,
                          (
                            empty_Restores 3 not_interested refl,
                            (
                              empty_Restores 0x0E have_all refl,
                              (empty_Restores 0x0F have_none refl, tt),
                            ),
                          ),
                        ),
                      ),
                    ),
                  ),
                ),
              ),
            ),
          ),
        ),
      ),
    ),
  ),
)

from_klass-Restores :
    (ks : List (ℕ × (Bytes → Result Message))) (mtype : ℕ) (p : Bytes) (m : Message)
    → All Restores ks
    → IsBytes p
    → from_klass ks mtype p ≡ ok m
    → is_empty_message m ≡ false
    → (type_of m ≡ mtype) × (to_payload m ≡ ok p)
unfolding from_klass
from_klass-Restores [] mtype p m r h e ne = cc
from_klass-Restores ((code, f) ∷ ks) mtype p m (r, rs) h e ne = elim (Bool-cases (code == mtype)) [
  | inl same ↦
      (let (typed, written) = r p m h (rw same at e) ne in
        (typed ∙ (==_iff code mtype).0 same, written))
  | inr other ↦ from_klass-Restores ks mtype p m rs h (rw other at e) ne
]

parse_body-ok :
    (s : Bytes) (m : Message)
    → parse_body s ≡ ok m
    → (mtype : ℕ) × (p : Bytes) × (s ≡ mtype ∷ p) × (from_klass klasses mtype p ≡ ok m)
unfolding parse_body
parse_body-ok [] m h = cc
parse_body-ok (mtype ∷ p) m h = (mtype, p, refl, h)

-- A frame of five bytes or more, its length in front, that was parsed goes back on the wire byte for
-- byte as it came, if its message is not one of the empty ones.
pub message_bytes-parse :
    (blob : Bytes) (m : Message)
    → IsBytes blob
    → 5 ≤ length blob
    → from_bytes (take 4 blob) + 4 ≡ length blob
    → parse blob ≡ ok m
    → is_empty_message m ≡ false
    → message_bytes m ≡ ok blob
unfolding message_bytes parse
message_bytes-parse blob m h long framed e ne =
    let (mtype, p, split, read) = parse_body-ok (drop 4 blob) m e in
    let body : IsBytes (mtype ∷ p) = rw split at (All-drop _ 4 blob h) in
    let (typed, written) = from_klass-Restores klasses mtype p m klasses-Restores body.1 read ne in
    let count : 1 + length p ≡ from_bytes (take 4 blob) =
      omega (arith, ap length split, length-drop 4 blob) in
    let head : encode_uint overflow_error 4 (1 + length p) ≡ ok (take 4 blob) = rw count (
      encode_uint-from_bytes overflow_error 4 (take 4 blob) (omega (arith, length-take 4 blob))
        (All-take _ 4 blob h)) in
    rw (written, head, typed, ← split, take-append-drop 4 blob)

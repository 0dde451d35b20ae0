-- ===== src/Trackers/Address.antt =====
-- str(IPv4Address(n)) and str(IPv6Address(b)), of the library that src/demagnetize/trackers/base.py
-- uses.
use demagnetize.Prelude.{
  ℕ, zero, suc, ◌+◌, ◌/◌, ◌%◌, ◌^◌, ◌≡◌, refl, List, [], ◌∷◌, ◌++◌, Bytes, codes, take, drop, ltb,
  leb, ◌==◌, if◌then◌else◌,
}
use demagnetize.Prelude.BigEndian.{from_bytes}
use demagnetize.Prelude.Hex.{hex_padded}
use demagnetize.Prelude.Decimal.{decimal}

-- sep.join(parts)
abbrev pub join_with : Bytes → List Bytes → Bytes
join_with sep [] = []
join_with sep (p ∷ []) = p
join_with sep (p ∷ q ∷ ps) = p ++ (sep ++ join_with sep (q ∷ ps))

-- The four numbers of an address of 32 bits, with dots between them.
unfoldable pub ipv4_text : ℕ → Bytes
ipv4_text n =
    decimal (n / 2 ^ 24)
    ++ b'.' ∷ decimal (n / 2 ^ 16 % 256)
    ++ b'.' ∷ decimal (n / 2 ^ 8 % 256)
    ++ b'.' ∷ decimal (n % 256)

-- b"%x" % n for a number of 16 bits
abbrev pub hex16 : ℕ → Bytes
hex16 n =
    if ltb n 16
    then hex_padded 1 n
    else if ltb n 256
    then hex_padded 2 n
    else if ltb n 4096
    then hex_padded 3 n
    else hex_padded 4 n

-- The eight numbers of 16 bits.
abbrev pub hextets : ℕ → Bytes → List ℕ
hextets zero b = []
hextets (suc n) b = from_bytes (take 2 b) ∷ hextets n (drop 2 b)

-- How many zeros a list starts with.
abbrev pub zeros : List ℕ → ℕ
zeros [] = 0
zeros (h ∷ hs) = if h == 0 then 1 + zeros hs else 0

-- Where the first of the longest runs of zeros starts and how long it is; `best` so far, from place
-- `i` on.
abbrev pub longest_zeros : ℕ → ℕ × ℕ → List ℕ → ℕ × ℕ
longest_zeros i best [] = best
longest_zeros i (start, len) (h ∷ hs) =
    longest_zeros (i + 1) (if ltb len (zeros (h ∷ hs)) then (i, zeros (h ∷ hs)) else (start, len))
      hs

abbrev pub map_hex16 : List ℕ → List Bytes
map_hex16 [] = []
map_hex16 (h ∷ hs) = hex16 h ∷ map_hex16 hs

-- A run of two zeros or more is written as "::".
abbrev pub compressed : List ℕ → ℕ × ℕ → Bytes
compressed hs (start, len) =
    if leb len 1
    then join_with (b':' ∷ []) (map_hex16 hs)
    else join_with (b':' ∷ []) (map_hex16 (take start hs))
      ++ (b':' ∷ b':' ∷ [])
      ++ join_with (b':' ∷ []) (map_hex16 (drop (start + len) hs))

unfoldable pub ipv6_text : Bytes → Bytes
ipv6_text b = compressed (hextets 8 b) (longest_zeros 0 (0, 0) (hextets 8 b))

ipv4_text_runs : ipv4_text 3232235777 ≡ codes "192.168.1.1"
unfolding ipv4_text decimal
ipv4_text_runs = refl

ipv6_text_runs :
    (ipv6_text (0x20 ∷ 1 ∷ 0x0d ∷ 0xb8 ∷ 0 ∷ 0 ∷ 0 ∷ 1 ∷ 0 ∷ 0 ∷ 0 ∷ 0 ∷ 0 ∷ 0 ∷ 0 ∷ 1 ∷ [])
      ≡ codes "2001:db8:0:1::1")
    × (ipv6_text (0 ∷ 0 ∷ 0 ∷ 0 ∷ 0 ∷ 0 ∷ 0 ∷ 0 ∷ 0 ∷ 0 ∷ 0 ∷ 0 ∷ 0 ∷ 0 ∷ 0 ∷ 0 ∷ []) ≡ codes "::")
    × (ipv6_text (0 ∷ 1 ∷ 0 ∷ 0 ∷ 0 ∷ 2 ∷ 0 ∷ 0 ∷ 0 ∷ 0 ∷ 0 ∷ 3 ∷ 0 ∷ 0 ∷ 0 ∷ 0 ∷ [])
        ≡ codes "1:0:2::3:0:0")
unfolding ipv6_text from_bytes
ipv6_text_runs = (refl, refl, refl)

-- ===== src/Trackers/Peers.antt =====
-- The compact lists of peers of src/demagnetize/trackers/base.py: BEP 23 for IPv4, BEP 7 for IPv6.
use demagnetize.Prelude.{
  ℕ, suc, ◌*◌, ◌^◌, ◌<◌, ◌≡◌, refl, sym, ap, ◌∙◌, Bool, true, false, none, List, [], ◌∷◌, ◌++◌, map,
  Bytes, All, arith, length, length-append_bytes, take-append, drop-append, if◌then◌else◌,
}
use demagnetize.Prelude.Int.{pos}
use demagnetize.Prelude.BigEndian.{big_endian, length-big_endian, from_bytes-big_endian}
use native.Mathlib.Nat.{mul_comm}
use demagnetize.Errors.{Error, Result, ok, err, value_error, Yields, returns, raises, Yields-ok}
use demagnetize.Struct.Records.{
  concat, iter_unpack, iter_unpack-concat, iter_unpack-Yields, length-concat,
}
use demagnetize.Peer.Address.{Peer}
use demagnetize.Trackers.Address.{ipv4_text, ipv6_text}
use demagnetize.Trackers.Base.{peer_of, peer6_of, peers_from, unpack_peers, unpack_peers6}

-- An address of 32 bits, and a port.
abbrev pub Endpoint : Type 0
Endpoint = ℕ × ℕ

abbrev pub packed : Endpoint → Bytes
packed (ip, port) = big_endian 4 ip ++ big_endian 2 port

abbrev pub named : Endpoint → Peer
named (ip, port) = record { host = ipv4_text ip; port = pos port; id = none }

abbrev pub IsEndpoint : Endpoint → Type 0
IsEndpoint (ip, port) = (ip < 2 ^ 32) × (port < 2 ^ 16)

packed-size : (es : List Endpoint) → All (λ r. length r ≡ 6) (map packed es)
packed-size [] = tt
packed-size ((ip, port) ∷ es) = (
  omega (
    arith,
    length-append_bytes (big_endian 4 ip) (big_endian 2 port),
    length-big_endian 4 ip,
    length-big_endian 2 port,
  ),
  packed-size es,
)

peer_of-packed : (e : Endpoint) → IsEndpoint e → peer_of (packed e) ≡ named e
peer_of-packed (ip, port) (h, k) = cc (
  take-append 4 (big_endian 4 ip) (big_endian 2 port) (length-big_endian 4 ip),
  drop-append 4 (big_endian 4 ip) (big_endian 2 port) (length-big_endian 4 ip),
  from_bytes-big_endian 4 ip (omega arith),
  from_bytes-big_endian 2 port (omega arith),
)

map-peer_of : (es : List Endpoint) → All IsEndpoint es → map peer_of (map packed es) ≡ map named es
map-peer_of [] all = refl
map-peer_of (e ∷ es) (h, all) = cc (peer_of-packed e h, map-peer_of es all)

-- Addresses below 2 ^ 32 and ports below 2 ^ 16 that are packed one behind the other are unpacked in their
-- order, each address in the text of its four bytes.
pub unpack_peers-concat :
    (es : List Endpoint)
    → All IsEndpoint es
    → unpack_peers (concat (map packed es)) ≡ ok (map named es)
unfolding unpack_peers
unpack_peers-concat es all =
    rw (iter_unpack-concat 5 (map packed es) (packed-size es)) (ap ok (map-peer_of es all))

-- An address of 16 bytes, and a port.
abbrev pub Endpoint6 : Type 0
Endpoint6 = Bytes × ℕ

abbrev pub packed6 : Endpoint6 → Bytes
packed6 (address, port) = address ++ big_endian 2 port

abbrev pub named6 : Endpoint6 → Peer
named6 (address, port) = record { host = ipv6_text address; port = pos port; id = none }

abbrev pub IsEndpoint6 : Endpoint6 → Type 0
IsEndpoint6 (address, port) = (length address ≡ 16) × (port < 2 ^ 16)

packed6-size :
    (es : List Endpoint6) → All IsEndpoint6 es → All (λ r. length r ≡ 18) (map packed6 es)
packed6-size [] all = tt
packed6-size ((address, port) ∷ es) ((h, k), all) = (
  omega (arith, length-append_bytes address (big_endian 2 port), length-big_endian 2 port, h),
  packed6-size es all,
)

peer6_of-packed6 : (e : Endpoint6) → IsEndpoint6 e → peer6_of (packed6 e) ≡ named6 e
peer6_of-packed6 (address, port) (h, k) = cc (
  take-append 16 address (big_endian 2 port) h,
  drop-append 16 address (big_endian 2 port) h,
  from_bytes-big_endian 2 port (omega (arith, k)),
)

map-peer6_of :
    (es : List Endpoint6) → All IsEndpoint6 es → map peer6_of (map packed6 es) ≡ map named6 es
map-peer6_of [] all = refl
map-peer6_of (e ∷ es) (h, all) = cc (peer6_of-packed6 e h, map-peer6_of es all)

-- Addresses of 16 bytes and ports below 2 ^ 16 that are packed one behind the other are unpacked in their
-- order, each address in its text.
pub unpack_peers6-concat :
    (es : List Endpoint6)
    → All IsEndpoint6 es
    → unpack_peers6 (concat (map packed6 es)) ≡ ok (map named6 es)
unfolding unpack_peers6
unpack_peers6-concat es all =
    rw (iter_unpack-concat 17 (map packed6 es) (packed6-size es all)) (ap ok (map-peer6_of es all))

-- The addresses and ports of a list of either family.
pub data Swarm : Type 0 where
  over_ipv4 : List Endpoint → Swarm
  over_ipv6 : List Endpoint6 → Swarm

abbrev pub has_ipv6 : Swarm → Bool
has_ipv6 (over_ipv4 es) = false
has_ipv6 (over_ipv6 es) = true

abbrev pub packed_swarm : Swarm → Bytes
packed_swarm (over_ipv4 es) = concat (map packed es)
packed_swarm (over_ipv6 es) = concat (map packed6 es)

abbrev pub named_swarm : Swarm → List Peer
named_swarm (over_ipv4 es) = map named es
named_swarm (over_ipv6 es) = map named6 es

abbrev pub IsSwarm : Swarm → Type 0
IsSwarm (over_ipv4 es) = All IsEndpoint es
IsSwarm (over_ipv6 es) = All IsEndpoint6 es

-- The list of either family, unpacked by the function that the program chooses for it.
pub unpack_by-packed_swarm :
    (w : Swarm)
    → IsSwarm w
    → (if has_ipv6 w then unpack_peers6 (packed_swarm w) else unpack_peers (packed_swarm w))
      ≡ ok (named_swarm w)
unpack_by-packed_swarm (over_ipv4 es) all = unpack_peers-concat es all
unpack_by-packed_swarm (over_ipv6 es) all = unpack_peers6-concat es all

length-map {ℓ κ} :
    {A : Type ℓ} {B : Type κ} (f : A → B) (xs : List A) → length (map f xs) ≡ length xs
length-map f [] = refl
length-map f (x ∷ xs) = omega (arith, length-map f xs)

peers_from-Yields :
    (f : Bytes → Peer) (size : ℕ) (blob : Bytes)
    → Yields
        (λ ps. length blob ≡ suc size * length ps)
        (λ e. e ≡ value_error)
        (peers_from f (iter_unpack (suc size) blob))
peers_from-Yields f size blob = go (iter_unpack (suc size) blob) (iter_unpack-Yields size blob)
  where
    go :
        (r : Result (List Bytes)) {E : Error → Type 0}
        → Yields (λ rs. (blob ≡ concat rs) × All (λ r. length r ≡ suc size) rs) E r
        → Yields (λ ps. length blob ≡ suc size * length ps) (λ e. e ≡ value_error) (peers_from f r)
    go (ok rs) h =
        let (e, all) = Yields-ok h refl in
        returns (
          ap length e
          ∙ (length-concat (suc size) rs all
              ∙ (mul_comm (length rs) (suc size) ∙ ap (λ n. suc size * n) (sym (length-map f rs)))))
    go (err _) h = raises refl

-- The list of either family, as the program chooses: the bytes are as many as the peers take, or a
-- `ValueError` is raised.
pub unpack_by-Yields :
    (is_ipv6 : Bool) (blob : Bytes)
    → Yields
        (λ ps. length blob ≡ (if is_ipv6 then 18 else 6) * length ps)
        (λ e. e ≡ value_error)
        (if is_ipv6 then unpack_peers6 blob else unpack_peers blob)
unfolding unpack_peers unpack_peers6
unpack_by-Yields true blob = peers_from-Yields peer6_of 17 blob
unpack_by-Yields false blob = peers_from-Yields peer_of 5 blob

-- ===== src/Trackers/Http/Replies.antt =====
-- The replies of BEP 3, with the compact lists of BEP 23 and BEP 7, as `HTTPAnnounceResponse.parse` of
-- src/demagnetize/trackers/http.py reads them.
use demagnetize.Prelude.{
  ℕ, ◌≤◌, ◌≡◌, refl, true, Option, none, some, List, [], ◌∷◌, map, ◌++◌, Bytes, All, arith, codes,
}
use demagnetize.Prelude.Int.{ℤ}
use demagnetize.Prelude.Order.{eq_bytes, lt_bytes}
use demagnetize.Errors.{ok}
use demagnetize.Struct.Records.{concat}
use demagnetize.Bencode.Value.{
  Value, Items, Fields, bytes, int, list, dict, nil, cons, end, field, get, nesting, nesting_items,
  nesting_fields, IsCanonical, AreCanonical, HasCanonical,
}
use demagnetize.Bencode.Encode.{bencode}
use demagnetize.Bencode.RoundTrip.{unbencode-bencode}
use demagnetize.Peer.Address.{Peer}
use demagnetize.Peer.Extended.{catch_unbencode, as_dict, get_int, get_bytes}
use demagnetize.Trackers.Peers.{
  Endpoint, IsEndpoint, packed, named, unpack_peers-concat, Endpoint6, IsEndpoint6, packed6, named6,
  unpack_peers6-concat,
}
use demagnetize.Trackers.Utf8.{is_utf8}
use demagnetize.Trackers.Http.{
  read_peer, read_peers, original_or_compact, read_response, parse_response,
}

-- A peer as a dict, with its ID if it has one.
abbrev id_field : Option Bytes → Fields → Fields
id_field none d = d
id_field (some id) d = field (codes "peer id") (bytes id) d

abbrev peer_dict : Bytes → Option Bytes → ℤ → Value
peer_dict host id port =
    dict (field (codes "ip") (bytes host) (id_field id (field (codes "port") (int port) end)))

abbrev pub peer_value : Peer → Value
peer_value p = peer_dict p.host p.id p.port

abbrev pub peer_values : List Peer → Items
peer_values [] = nil
peer_values (p ∷ ps) = cons (peer_value p) (peer_values ps)

-- The two formats of the peers.
pub data PeerList : Type 0 where
  original : List Peer → PeerList
  compact : List Endpoint → PeerList

abbrev pub peers_value : PeerList → Value
peers_value (original ps) = list (peer_values ps)
peers_value (compact es) = bytes (concat (map packed es))

abbrev pub peers_meant : PeerList → List Peer
peers_meant (original ps) = ps
peers_meant (compact es) = map named es

-- Hosts are text; addresses and ports fit their bytes.
abbrev pub IsSound : PeerList → Type 0
IsSound (original ps) = All (λ p. is_utf8 p.host ≡ true) ps
IsSound (compact es) = All IsEndpoint es

pub record Reply : Type 0 where
  pub complete : ℤ
  pub incomplete : ℤ
  pub interval : ℤ
  pub peers : PeerList
  pub peers6 : Option (List Endpoint6)

-- The IPv6 peers, if the reply has a list of them.
abbrev pub peers6_field : Option (List Endpoint6) → Fields
peers6_field none = end
peers6_field (some es) = field (codes "peers6") (bytes (concat (map packed6 es))) end

abbrev pub peers6_meant : Option (List Endpoint6) → List Peer
peers6_meant none = []
peers6_meant (some es) = map named6 es

abbrev pub AreSound6 : Option (List Endpoint6) → Type 0
AreSound6 none = Unit
AreSound6 (some es) = All IsEndpoint6 es

abbrev reply_fields : ℤ → ℤ → ℤ → PeerList → Option (List Endpoint6) → Fields
reply_fields complete incomplete interval l l6 = field (codes "complete") (int complete) (
    field (codes "incomplete") (int incomplete) (
      field (codes "interval") (int interval)
        (field (codes "peers") (peers_value l) (peers6_field l6))))

abbrev pub reply_value : Reply → Value
reply_value r = dict (reply_fields r.complete r.incomplete r.interval r.peers r.peers6)

read_peer-peer_dict :
    (host : Bytes) (id : Option Bytes) (port : ℤ)
    → is_utf8 host ≡ true
    → read_peer (peer_dict host id port) ≡ ok (record { host = host; port = port; id = id })
unfolding as_dict get get_bytes eq_bytes
read_peer-peer_dict host none port h = rw h refl
read_peer-peer_dict host (some id) port h = rw h refl

read_peers-peer_values :
    (ps : List Peer) → All (λ p. is_utf8 p.host ≡ true) ps → read_peers (peer_values ps) ≡ ok ps
unfolding read_peers
read_peers-peer_values [] h = refl
read_peers-peer_values (p ∷ ps) (h, hs) =
    cc (read_peer-peer_dict p.host p.id p.port h, read_peers-peer_values ps hs)

original_or_compact-peers_value :
    (l : PeerList) → IsSound l → original_or_compact (some (peers_value l)) ≡ ok (peers_meant l)
original_or_compact-peers_value (original ps) h = read_peers-peer_values ps h
original_or_compact-peers_value (compact es) h = unpack_peers-concat es h

peer_dict-IsCanonical :
    (host : Bytes) (id : Option Bytes) (port : ℤ) → IsCanonical (peer_dict host id port)
unfolding IsCanonical HasCanonical lt_bytes
peer_dict-IsCanonical host none port = ((refl, (refl, tt)), (tt, (tt, tt)))
peer_dict-IsCanonical host (some id) port = ((refl, (refl, (refl, tt))), (tt, (tt, (tt, tt))))

peer_values-AreCanonical : (ps : List Peer) → AreCanonical (peer_values ps)
unfolding AreCanonical
peer_values-AreCanonical [] = tt
peer_values-AreCanonical (p ∷ ps) =
    (peer_dict-IsCanonical p.host p.id p.port, peer_values-AreCanonical ps)

nesting-peer_dict :
    (host : Bytes) (id : Option Bytes) (port : ℤ) → nesting (peer_dict host id port) ≡ 2
unfolding nesting nesting_fields
nesting-peer_dict host none port = refl
nesting-peer_dict host (some id) port = refl

nesting_items-peer_values : (ps : List Peer) → nesting_items (peer_values ps) ≤ 2
unfolding nesting_items
nesting_items-peer_values [] = omega arith
nesting_items-peer_values (p ∷ ps) =
    omega (arith, nesting-peer_dict p.host p.id p.port, nesting_items-peer_values ps)

peers_value-IsCanonical : (l : PeerList) → IsCanonical (peers_value l)
unfolding IsCanonical
peers_value-IsCanonical (original ps) = peer_values-AreCanonical ps
peers_value-IsCanonical (compact es) = tt

nesting-peers_value : (l : PeerList) → nesting (peers_value l) ≤ 3
unfolding nesting
nesting-peers_value (original ps) = omega (arith, nesting_items-peer_values ps)
nesting-peers_value (compact es) = omega arith

reply_fields-IsCanonical :
    (a b c : ℤ) (l : PeerList) (l6 : Option (List Endpoint6))
    → IsCanonical (dict (reply_fields a b c l l6))
unfolding IsCanonical HasCanonical lt_bytes
reply_fields-IsCanonical a b c l none =
    ((refl, (refl, (refl, (refl, tt)))), (tt, (tt, (tt, (peers_value-IsCanonical l, tt)))))
reply_fields-IsCanonical a b c l (some es) = (
  (refl, (refl, (refl, (refl, (refl, tt))))),
  (tt, (tt, (tt, (peers_value-IsCanonical l, (tt, tt))))),
)

nesting-peers6_field : (l : Option (List Endpoint6)) → nesting_fields (peers6_field l) ≤ 1
unfolding nesting nesting_fields
nesting-peers6_field none = omega arith
nesting-peers6_field (some es) = omega arith

read_response-reply_fields :
    (replaced : Bytes → Bytes) (a b c : ℤ) (l : PeerList) (l6 : Option (List Endpoint6))
    → IsSound l
    → AreSound6 l6
    → read_response replaced (reply_fields a b c l l6)
      ≡ ok (record {
        interval = c;
        peers = peers_meant l ++ peers6_meant l6;
        warning_message = none;
        min_interval = none;
        tracker_id = none;
        complete = some a;
        incomplete = some b;
      })
unfolding read_response get get_int get_bytes eq_bytes
read_response-reply_fields replaced a b c l none sound sound6 =
    rw (original_or_compact-peers_value l sound) refl
read_response-reply_fields replaced a b c l (some es) sound sound6 =
    rw (original_or_compact-peers_value l sound, unpack_peers6-concat es sound6) refl

nesting-reply_value : (r : Reply) → nesting (reply_value r) ≤ 4
unfolding nesting nesting_fields
nesting-reply_value r = omega (arith, nesting-peers_value r.peers, nesting-peers6_field r.peers6)

-- A tracker's reply, with the peers in the original or the compact format, and with or without a compact
-- list of IPv6 peers, is read as its interval, its numbers, its peers in their order and then its IPv6
-- peers in theirs, with no warning, if the interpreter takes four nested calls, the hosts of the original
-- format are UTF-8, and the addresses and ports of the compact ones fit their bytes.
pub parse_response-bencode :
    (replaced : Bytes → Bytes) (depth : ℕ) (r : Reply)
    → IsSound r.peers
    → AreSound6 r.peers6
    → 4 ≤ depth
    → parse_response replaced depth (bencode (reply_value r))
      ≡ ok (record {
        interval = r.interval;
        peers = peers_meant r.peers ++ peers6_meant r.peers6;
        warning_message = none;
        min_interval = none;
        tracker_id = none;
        complete = some r.complete;
        incomplete = some r.incomplete;
      })
unfolding parse_response catch_unbencode as_dict
parse_response-bencode replaced depth r sound sound6 deep =
    rw
      (unbencode-bencode (reply_value r) depth
        (reply_fields-IsCanonical r.complete r.incomplete r.interval r.peers r.peers6)
        (omega (arith, nesting-reply_value r)))
      (read_response-reply_fields replaced r.complete r.incomplete r.interval r.peers r.peers6 sound
        sound6)

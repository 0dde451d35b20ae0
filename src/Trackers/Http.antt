-- ===== src/Trackers/Http.antt =====
-- src/demagnetize/trackers/http.py: `HTTPAnnounceResponse.parse`, and the `get_string` of
-- src/demagnetize/util.py.
pub mod Announce
pub mod Responses
pub mod Replies
use demagnetize.Prelude.{
  ℕ, Bool, true, false, Option, none, some, List, [], ◌∷◌, ◌++◌, Bytes, codes,
}
use demagnetize.Prelude.Int.{ℤ, pos}
use demagnetize.Errors.{Error, Result, ok, err, ◌>>=◌, ◌>>◌, guard, value_error, tracker_failure}
use demagnetize.Bencode.Value.{Value, Items, Fields, bytes, int, list, dict, nil, cons, get}
use demagnetize.Bencode.Decode.{unbencode}
use demagnetize.Peer.Address.{Peer}
use demagnetize.Peer.Extended.{catch_unbencode, as_dict, get_int, get_bytes}
use demagnetize.Trackers.Base.{unpack_peers, unpack_peers6}
use demagnetize.Trackers.Utf8.{decode_utf8}

pub record HttpAnnounceResponse : Type 0 where
  pub interval : ℤ
  pub peers : List Peer
  pub warning_message : Option Bytes
  pub min_interval : Option ℤ
  pub tracker_id : Option Bytes
  pub complete : Option ℤ
  pub incomplete : Option ℤ

-- `cast(bytes, p[b"ip"]).decode("utf-8")`: whatever goes wrong is a ValueError.
abbrev pub peer_ip : Option Value → Result Bytes
peer_ip (some (bytes b)) = decode_utf8 b
peer_ip _ = err value_error

-- `if b"port" in p and isinstance(p[b"port"], int)`
abbrev pub peer_port_of : Option Value → Result ℤ
peer_port_of (some (int port)) = ok port
peer_port_of _ = err value_error

-- A peer of the original format.
abbrev pub read_peer : Value → Result Peer
read_peer v = do
  p ← as_dict v
  ip ← peer_ip (get p (codes "ip"))
  port ← peer_port_of (get p (codes "port"))
  ok (record { host = ip; port = port; id = get_bytes p (codes "peer id") })

-- The loop over a list of peers.
unfoldable pub read_peers : Items → Result (List Peer)
read_peers nil = ok []
read_peers (cons v vs) = do p ← read_peer v; ps ← read_peers vs; ok (p ∷ ps)

-- What is under "peers".
abbrev pub original_or_compact : Option Value → Result (List Peer)
original_or_compact none = ok []
original_or_compact (some (list vs)) = read_peers vs
original_or_compact (some (bytes b)) = unpack_peers b
original_or_compact (some _) = err value_error

-- What is under "peers6".
abbrev pub compact6 : Option Value → Result (List Peer)
compact6 none = ok []
compact6 (some (bytes b)) = unpack_peers6 b
compact6 (some _) = err value_error

-- `if (failure := data.get(b"failure reason")) is not None`
abbrev pub no_failure : Option Value → Result (Unit {0})
no_failure none = ok tt
no_failure (some _) = err tracker_failure

-- `if interval is None: interval = 1800`
abbrev pub interval_or_default : Option ℤ → ℤ
interval_or_default none = pos 1800
interval_or_default (some i) = i

-- `replaced` is bytes.decode("utf-8", "replace").
module _ (replaced : Bytes → Bytes) where
  abbrev pub text_of : Option Bytes → Option Bytes
  text_of none = none
  text_of (some b) = some (replaced b)

  -- get_string
  abbrev pub get_string : Fields → Bytes → Option Bytes
  get_string d key = text_of (get_bytes d key)

  -- What `parse` takes from the dict that it has found.
  unfoldable pub read_response : Fields → Result HttpAnnounceResponse
  read_response d = do
    no_failure (get d (codes "failure reason"))
    peers ← original_or_compact (get d (codes "peers"))
    peers6 ← compact6 (get d (codes "peers6"))
    ok (record {
      interval = interval_or_default (get_int d (codes "interval"));
      peers = peers ++ peers6;
      warning_message = get_string d (codes "warning message");
      min_interval = get_int d (codes "min interval");
      tracker_id = get_bytes d (codes "tracker id");
      complete = get_int d (codes "complete");
      incomplete = get_int d (codes "incomplete");
    })

  -- HTTPAnnounceResponse.parse
  unfoldable pub parse_response : ℕ → Bytes → Result HttpAnnounceResponse
  parse_response depth content = do
    v ← catch_unbencode (unbencode depth content)
    d ← as_dict v
    read_response d

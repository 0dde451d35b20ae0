-- ===== src/Tests/Http.antt =====
-- src/demagnetize/trackers/http.py and base.py at concrete inputs.
use demagnetize.Prelude.{
  ℕ, ◌%◌, ◌+◌, ◌≡◌, refl, ◌⊎◌, arith, none, some, true, false, [], ◌∷◌, Bytes, codes,
}
use demagnetize.Prelude.Int.{pos}
use demagnetize.Errors.{Result, ok, is_value_error, Yields, returns}
use demagnetize.Bencode.Encode.{bencode}
use demagnetize.Peer.Address.{Peer}
use demagnetize.Trackers.Address.{ipv6_text}
use demagnetize.Prelude.BigEndian.{from_bytes}
use demagnetize.Trackers.Base.{started}
use demagnetize.Trackers.Http.{parse_response}
use demagnetize.Trackers.Http.Announce.{HttpAnnouncement, Fetched, replied}
use demagnetize.Trackers.Http.Responses.{Refuses, Reads, parse_response-Yields}
use demagnetize.Trackers.Http.Replies.{original, Reply, reply_value, parse_response-bencode}
use demagnetize.Trackers.Udp.Session.{UdpTrackerSession, Context}
use demagnetize.Trackers.Udp.Session.Packs.{Suits}
use demagnetize.Trackers.Tracker.{Url, from_url, get_peers}
use demagnetize.Trackers.Tracker.Sessions.{udp_session}
use demagnetize.Trackers.Tracker.Outcome.{
  AreAnswered, get_peers-udp_session, IsMade, from_url-Yields,
}

abbrev untouched : Bytes → Bytes
untouched b = b

abbrev a_peer : Peer
a_peer = record {
  host = codes "192.168.1.1";
  port = pos 51413;
  id = some (codes "-TR3000-12nig788rk3b");
}

abbrev a_reply : Reply
a_reply = record {
  complete = pos 5;
  incomplete = pos 6;
  interval = pos 1800;
  peers = original (a_peer ∷ []);
  peers6 =
      some
        ((0x20 ∷ 1 ∷ 0x0d ∷ 0xb8 ∷ 0 ∷ 0 ∷ 0 ∷ 1 ∷ 0 ∷ 0 ∷ 0 ∷ 0 ∷ 0 ∷ 0 ∷ 0 ∷ 1 ∷ [], 6881) ∷ []);
}

parse_response-bencode_example :
    parse_response untouched 4 (bencode (reply_value a_reply))
    ≡ ok (record {
      interval = pos 1800;
      peers = a_peer ∷ record { host = codes "2001:db8:0:1::1"; port = pos 6881; id = none } ∷ [];
      warning_message = none;
      min_interval = none;
      tracker_id = none;
      complete = some (pos 5);
      incomplete = some (pos 6);
    })
unfolding ipv6_text from_bytes
parse_response-bencode_example =
    parse_response-bencode untouched 4 a_reply (refl, tt) ((refl, omega arith), tt) (omega arith)

parse_response-Yields_example :
    Yields
      (Reads untouched (codes "d14:failure reason2:noe"))
      (Refuses (codes "d14:failure reason2:noe"))
      (parse_response untouched 4 (codes "d14:failure reason2:noe"))
parse_response-Yields_example = parse_response-Yields untouched 4 (codes "d14:failure reason2:noe")

abbrev an_announcement : HttpAnnouncement
an_announcement = record {
  url = codes "http://t.example/a";
  query_string = [];
  info_hash = codes "aaaaabbbbbcccccddddd";
  peer_id = codes "-DM-0030-xxxxxxxxxxx";
  peer_port = 6881;
  key = 17;
  event = started;
  downloaded = pos 0;
  uploaded = pos 0;
  left = pos 65535;
}

abbrev answer_all : Bytes → Fetched
answer_all target = replied false (codes "d5:peers6:aaaabbe")

abbrev answer_in_time : Bytes → ℕ → Fetched × ℕ
answer_in_time target now = (answer_all target, 500)

abbrev a_context : Context
a_context = record {
  peer_id = codes "-DM-0030-xxxxxxxxxxx";
  peer_port = 6881;
  key = 17;
  urldata = codes "/a";
  is_ipv6 = false;
  draw = λ n. pos (7 + n % 100);
}

abbrev a_session : UdpTrackerSession
a_session = record {
  connection = none;
  clock = 0;
  arrivals = (100, 0 ∷ 0 ∷ 0 ∷ 0 ∷ 0 ∷ 0 ∷ 0 ∷ 7 ∷ 0 ∷ 0 ∷ 0 ∷ 0 ∷ 0 ∷ 0 ∷ 0 ∷ 99 ∷ []) ∷ [];
  sent = [];
  drawn = 0;
}

a_context-Suits : Suits a_context
a_context-Suits = record {
  peer_id = refl;
  peer_port = omega arith;
  key = omega arith;
  draw = λ i. omega arith;
}

get_peers-udp_session_example :
    (let end = get_peers (udp_session a_context (codes "aaaaabbbbbcccccddddd")) 0 (ok a_session) in
      (end.0 ≡ ok tt) × ((end.1 ≡ []) ⊎ AreAnswered a_context end.1))
get_peers-udp_session_example =
    get_peers-udp_session a_context (codes "aaaaabbbbbcccccddddd") 0 (ok a_session) a_context-Suits
      refl (returns (record { connection = λ conn e. cc; arrivals = ground arith }))

abbrev parse_any : Bytes → Result Url
parse_any url = ok (record {
  text = codes "udp://t.example:6969/a";
  query_string = [];
  path_qs = codes "/a";
  scheme = codes "udp";
  host = some url;
  port = some 6969;
})

from_url-Yields_example :
    Yields
      (λ t. (u : Url) × (parse_any (codes "t.example") ≡ ok u) × IsMade u t)
      (λ e. is_value_error e ≡ true)
      (from_url parse_any (codes "t.example"))
from_url-Yields_example = from_url-Yields parse_any (codes "t.example") (returns tt)

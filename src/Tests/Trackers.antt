-- ===== src/Tests/Trackers.antt =====
-- src/demagnetize/trackers/ at concrete inputs, some of them those of test/test_udp_tracker.py.
use demagnetize.Prelude.{
  ◌+◌, ◌*◌, ◌≡◌, refl, arith, none, true, false, List, [], ◌∷◌, ◌++◌, map, codes, Bytes, length,
  if◌then◌else◌,
}
use demagnetize.Prelude.Int.{pos, negsuc}
use demagnetize.Prelude.BigEndian.{big_endian, from_bytes}
use demagnetize.Prelude.Decimal.{decimal}
use demagnetize.Errors.{ok, err, tracker_failure, Yields}
use demagnetize.Struct.{encode_uint}
use demagnetize.Struct.Signed.{pack_int, unpack_int, signed}
use demagnetize.Struct.Records.{iter_unpack, concat}
use demagnetize.Trackers.Address.{ipv4_text, ipv6_text}
use demagnetize.Trackers.Base.{unpack_peers, unpack_peers6, started}
use demagnetize.Trackers.Peers.{
  Endpoint, packed, named, unpack_peers-concat, Endpoint6, packed6, over_ipv4, over_ipv6,
}
use demagnetize.Trackers.Udp.{
  request_fields, build_connection_request, int_at, raise_error_response, parse_connection_response,
  AnnounceRequest, url_options, announce_fields, build_announce_request, parse_announce_response,
}
use demagnetize.Trackers.Udp.Requests.{Fits, Announces, build_announce_request_lem}
use demagnetize.Trackers.Udp.Responses.{
  parse_connection_response_lem, parse_announce_response_lem, IsRefused,
  parse_announce_response-Yields, raise_error_response_lem,
}
use demagnetize.Trackers.Udp.Session.{
  UdpTrackerSession, Context, get_connection, send_receive, send_receive_loop, connection_announce,
  announce_loop, announce,
}
use demagnetize.Trackers.Udp.Session.Announce.{Concludes, announce-Concludes}

-- 192.168.1.1:51413 and 10.0.0.2:6881
abbrev endpoints : List Endpoint
endpoints = (3232235777, 51413) ∷ (167772162, 6881) ∷ []

unpack_peers-concat_runs : unpack_peers (concat (map packed endpoints)) ≡ ok (map named endpoints)
unpack_peers-concat_runs =
    unpack_peers-concat endpoints ((omega arith, omega arith), ((omega arith, omega arith), tt))

abbrev connection_response : Bytes
connection_response = 0 ∷ 0 ∷ 0 ∷ 0 ∷ 0 ∷ 0 ∷ 0 ∷ 7 ∷ 0 ∷ 0 ∷ 0 ∷ 0 ∷ 0 ∷ 0 ∷ 0 ∷ 99 ∷ []

-- [2001:db8:0:1::1]:6881
abbrev an_endpoint6 : Endpoint6
an_endpoint6 = (0x20 ∷ 1 ∷ 0x0d ∷ 0xb8 ∷ 0 ∷ 0 ∷ 0 ∷ 1 ∷ 0 ∷ 0 ∷ 0 ∷ 0 ∷ 0 ∷ 0 ∷ 0 ∷ 1 ∷ [], 6881)

-- Action 1, transaction 8, interval 1800, 3 leechers and 26 seeders.
abbrev announced_numbers : Bytes
announced_numbers =
    0 ∷ 0 ∷ 0 ∷ 1 ∷ 0 ∷ 0 ∷ 0 ∷ 8 ∷ 0 ∷ 0 ∷ 7 ∷ 8 ∷ 0 ∷ 0 ∷ 0 ∷ 3 ∷ 0 ∷ 0 ∷ 0 ∷ 26 ∷ []

abbrev announce_response : Bytes
announce_response = announced_numbers ++ 192 ∷ 168 ∷ 1 ∷ 1 ∷ 200 ∷ 213 ∷ []

-- A record of "!16cH" at its offsets.
unpack_peers6-concat_runs :
    unpack_peers6
      (0x20 ∷ 1 ∷ 0x0d ∷ 0xb8 ∷ 0 ∷ 0 ∷ 0 ∷ 1 ∷ 0 ∷ 0 ∷ 0 ∷ 0 ∷ 0 ∷ 0 ∷ 0 ∷ 1 ∷ 0x1A ∷ 0xE1 ∷ [])
    ≡ ok (record { host = codes "2001:db8:0:1::1"; port = pos 6881; id = none } ∷ [])
unfolding unpack_peers6 iter_unpack ipv6_text from_bytes
unpack_peers6-concat_runs = refl

parse_connection_response_lem_runs :
    parse_connection_response (pos 7) (connection_response ++ codes "more") ≡ ok (pos 99)
unfolding unpack_int signed from_bytes
parse_connection_response_lem_runs =
    parse_connection_response_lem (0 ∷ 0 ∷ 0 ∷ 0 ∷ []) (0 ∷ 0 ∷ 0 ∷ 7 ∷ [])
      (0 ∷ 0 ∷ 0 ∷ 0 ∷ 0 ∷ 0 ∷ 0 ∷ 99 ∷ []) (codes "more") (pos 7) (pos 99) (refl, refl)
      (refl, refl) (refl, refl)

parse_announce_response_lem_runs :
    parse_announce_response (pos 8) announce_response false
    ≡ ok (record {
      interval = pos 1800;
      leechers = pos 3;
      seeders = pos 26;
      peers = named (3232235777, 51413) ∷ [];
    })
unfolding unpack_int signed from_bytes big_endian
parse_announce_response_lem_runs =
    parse_announce_response_lem (0 ∷ 0 ∷ 0 ∷ 1 ∷ []) (0 ∷ 0 ∷ 0 ∷ 8 ∷ []) (0 ∷ 0 ∷ 7 ∷ 8 ∷ [])
      (0 ∷ 0 ∷ 0 ∷ 3 ∷ []) (0 ∷ 0 ∷ 0 ∷ 26 ∷ []) (pos 8) (pos 1800) (pos 3) (pos 26)
      (over_ipv4 ((3232235777, 51413) ∷ [])) (refl, refl) (refl, refl) (refl, refl) (refl, refl)
      (refl, refl) ((omega arith, omega arith), tt)

parse_announce_response_lem_example :
    parse_announce_response (pos 8) (announced_numbers ++ packed6 an_endpoint6) true
    ≡ ok (record {
      interval = pos 1800;
      leechers = pos 3;
      seeders = pos 26;
      peers = record { host = codes "2001:db8:0:1::1"; port = pos 6881; id = none } ∷ [];
    })
unfolding unpack_int signed from_bytes big_endian ipv6_text
parse_announce_response_lem_example =
    parse_announce_response_lem (0 ∷ 0 ∷ 0 ∷ 1 ∷ []) (0 ∷ 0 ∷ 0 ∷ 8 ∷ []) (0 ∷ 0 ∷ 7 ∷ 8 ∷ [])
      (0 ∷ 0 ∷ 0 ∷ 3 ∷ []) (0 ∷ 0 ∷ 0 ∷ 26 ∷ []) (pos 8) (pos 1800) (pos 3) (pos 26)
      (over_ipv6 (an_endpoint6 ∷ [])) (refl, refl) (refl, refl) (refl, refl) (refl, refl)
      (refl, refl) ((refl, omega arith), tt)

raise_error_response_lem_runs :
    (parse_connection_response (pos 7) (0 ∷ 0 ∷ 0 ∷ 3 ∷ 0 ∷ 0 ∷ 0 ∷ 9 ∷ codes "no")
      ≡ err tracker_failure)
    × (parse_announce_response (pos 7) (0 ∷ 0 ∷ 0 ∷ 3 ∷ 0 ∷ 0 ∷ 0 ∷ 9 ∷ codes "no") true
        ≡ err tracker_failure)
unfolding unpack_int signed from_bytes
raise_error_response_lem_runs =
    raise_error_response_lem (pos 7) (0 ∷ 0 ∷ 0 ∷ 3 ∷ 0 ∷ 0 ∷ 0 ∷ 9 ∷ codes "no") true (omega arith)
      refl

parse_announce_response-Yields_example :
    Yields
      (λ r.
        (int_at 0 4 announce_response ≡ pos 1)
        × (int_at 4 4 announce_response ≡ pos 8)
        × (length announce_response ≡ 20 + (if false then 18 else 6) * length r.peers))
      (IsRefused announce_response)
      (parse_announce_response (pos 8) announce_response false)
parse_announce_response-Yields_example =
    parse_announce_response-Yields (pos 8) announce_response false

-- The announcement of test_build_announce_request_with_urldata.
abbrev announcement : AnnounceRequest
announcement = record {
  transaction_id = negsuc 1523061016;
  connection_id = pos 0x5CCBDFDB157C25BA;
  info_hash = codes "aaaaabbbbbcccccddddd";
  peer_id = codes "-TR3000-12nig788rk3b";
  peer_port = 60069;
  key = 0x2C545EDE;
  event = started;
  downloaded = pos 0;
  uploaded = pos 0;
  left = pos 0x7FFFFFFFFFFFFFFF;
  urldata = codes "/announce";
}

announcement-Fits : Fits announcement
announcement-Fits = record {
  connection_id = omega arith;
  transaction_id = omega arith;
  info_hash = refl;
  peer_id = refl;
  downloaded = omega arith;
  uploaded = omega arith;
  left = omega arith;
  key = omega arith;
  peer_port = omega arith;
}

build_announce_request_lem_example :
    (packet : Bytes) × (build_announce_request announcement ≡ ok packet)
    × Announces announcement packet
build_announce_request_lem_example = build_announce_request_lem announcement announcement-Fits

build_connection_request_runs :
    build_connection_request (pos 0x5C310D73)
    ≡ ok (
        0 ∷ 0 ∷ 4 ∷ 0x17 ∷ 0x27 ∷ 0x10 ∷ 0x19 ∷ 0x80 ∷ 0 ∷ 0 ∷ 0 ∷ 0 ∷ 0x5C ∷ 0x31 ∷ 0x0D ∷ 0x73
        ∷ [])
unfolding build_connection_request request_fields pack_int big_endian
build_connection_request_runs = refl

abbrev context : Context
context = record {
  peer_id = codes "-DM-0030-xxxxxxxxxxx";
  peer_port = 6881;
  key = 17;
  urldata = [];
  is_ipv6 = false;
  draw = λ n. pos (7 + n);
}

-- The tracker answers the first request after 20 seconds, when it has been sent twice, and the second
-- one at once.
abbrev session : UdpTrackerSession
session = record {
  connection = none;
  clock = 0;
  arrivals = (20000, connection_response) ∷ (20100, announce_response) ∷ [];
  sent = [];
  drawn = 0;
}

announce_runs :
    let end =
      announce context
        (codes "aaaaabbbbbcccccddddd")
        started
        (pos 0)
        (pos 0)
        (pos 65535)
        30000
        session in
    (end.0
      ≡ ok (record {
        interval = pos 1800;
        leechers = pos 3;
        seeders = pos 26;
        peers = named (3232235777, 51413) ∷ [];
      }))
    × (length end.1.sent ≡ 3)
    × (end.1.clock ≡ 20100)
unfolding announce announce_loop get_connection connection_announce send_receive send_receive_loop
    build_connection_request build_announce_request announce_fields url_options request_fields
    encode_uint pack_int big_endian parse_connection_response parse_announce_response
    raise_error_response unpack_int signed from_bytes unpack_peers iter_unpack ipv4_text decimal
announce_runs = (refl, refl, refl)

announce-Concludes_example : Concludes context 30000 none session (
    announce context
      (codes "aaaaabbbbbcccccddddd")
      started
      (pos 0)
      (pos 0)
      (pos 65535)
      30000
      session)
announce-Concludes_example =
    announce-Concludes context 30000 (codes "aaaaabbbbbcccccddddd") started (pos 0) (pos 0)
      (pos 65535) session

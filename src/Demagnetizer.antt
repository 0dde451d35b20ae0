-- ===== src/Demagnetizer.antt =====
-- src/demagnetize/core.py: `Demagnetizer`, from the random numbers that it draws to the torrent that it
-- composes, over the sessions, trackers and peers as they are modelled.
pub mod Numbers
pub mod Outcome
use demagnetize.Prelude.{ℕ, ◌^◌, ◌≡◌, Bool, false, Option, none, some, List, [], Bytes}
use demagnetize.Prelude.Int.{ℤ, pos}
use demagnetize.Errors.{Error, Result, ok, err, ◌>>=◌}
use demagnetize.Bencode.Value.{Fields}
use demagnetize.Util.Random.{randint, randint_about}
use demagnetize.Util.Identity.{generate_key, make_peer_id}
use demagnetize.Util.InfoHash.{InfoHash, from_string}
use demagnetize.Peer.Address.{Peer}
use demagnetize.Peer.Contact.{Socket, get_info}
use demagnetize.Trackers.Base.{started}
use demagnetize.Trackers.Tracker.{Url, Tracker, http_tracker, udp_tracker, from_url, get_peers}
use demagnetize.Trackers.Tracker.Sessions.{http_session, udp_session, left_unknown}
use demagnetize.Trackers.Http.Announce.{HttpAnnouncement, Fetched}
use demagnetize.Trackers.Udp.Session.{UdpTrackerSession, Context}
use demagnetize.Session.{TorrentSession, Phase, Reaches, outcome, open_session}

pub record Demagnetizer : Type 0 where
  pub key : ℕ
  pub peer_id : Bytes
  pub peer_port : ℕ

-- The random numbers that the factories of a Demagnetizer's fields draw.
pub record Draws : Type 0 where
  pub key : ℕ
  pub peer_id : ℕ → ℕ
  pub peer_port : ℕ

-- Demagnetizer()
abbrev pub new_app : Draws → Demagnetizer
new_app d = record {
  key = generate_key d.key;
  peer_id = make_peer_id d.peer_id;
  peer_port = randint 1025 65535 d.peer_port;
}

-- What torf tells of a magnet link.
pub record Magnet : Type 0 where
  pub infohash : List ℕ
  pub tr : List Bytes

-- What the program gives a torrent.
pub record Torrent (Metainfo : Type 0) : Type 0 where
  pub info : Metainfo
  pub trackers : List Bytes
  pub created_by : Bytes
  pub creation_date : ℕ

-- compose_torrent; `decode_dict` is torf's, `client` stands for CLIENT, and `now` is the time.
abbrev pub compose_torrent :
    {Metainfo : Type 0} → (Fields → Metainfo) → Bytes → ℕ → Magnet → Fields → Torrent Metainfo
compose_torrent decode_dict client now magnet info = record {
  info = decode_dict info;
  trackers = magnet.tr;
  created_by = client;
  creation_date = now;
}

-- What the network and the libraries do: the answers of HTTP trackers and how long they take, what
-- opening a socket to a UDP tracker comes to (an address family and the datagrams to come, with their
-- times), the random numbers that are drawn for transactions, and what opening a socket to a peer comes to.
pub record World : Type 0 where
  pub parse_url : Bytes → Result Url
  pub replaced : Bytes → Bytes
  pub sha1 : Bytes → Bytes
  pub depth : ℕ
  pub start : Tracker → ℕ
  pub answers : Tracker → Bytes → ℕ → Fetched × ℕ
  pub opens : Tracker → Result (Bool × List (ℕ × Bytes))
  pub draw : Tracker → ℕ → ℕ
  pub sockets : Peer → Result Socket

-- A session of UDPTracker.connect.
abbrev pub new_session : ℕ → List (ℕ × Bytes) → UdpTrackerSession
new_session now arrivals = record {
  connection = none;
  clock = now;
  arrivals = arrivals;
  sent = [];
  drawn = 0;
}

module _ (app : Demagnetizer) where
  -- What HTTPTrackerSession.announce is made from.
  abbrev pub http_announcement : Bytes → Url → HttpAnnouncement
  http_announcement info_hash u = record {
    url = u.text;
    query_string = u.query_string;
    info_hash = info_hash;
    peer_id = app.peer_id;
    peer_port = app.peer_port;
    key = app.key;
    event = started;
    downloaded = pos 0;
    uploaded = pos 0;
    left = left_unknown;
  }

  -- What Connection.announce is made from; a transaction's ID is from -(2 ^ 31) to 2 ^ 31 - 1.
  abbrev pub udp_context : Url → Bool → (ℕ → ℕ) → Context
  udp_context u is_ipv6 draw = record {
    peer_id = app.peer_id;
    peer_port = app.peer_port;
    key = app.key;
    urldata = u.path_qs;
    is_ipv6 = is_ipv6;
    draw = λ i. randint_about (2 ^ 31) (draw i);
  }

module _ (app : Demagnetizer) (client : Bytes) (world : World) where
  -- get_peers of a UDP tracker, over a socket that was opened or not.
  abbrev pub over_socket :
      Bytes → Url → ℕ → (ℕ → ℕ) → Result (Bool × List (ℕ × Bytes)) → Result (Unit {0}) × List Peer
  over_socket info_hash u now draw (ok (is_ipv6, arrivals)) =
      get_peers (udp_session (udp_context app u is_ipv6 draw) info_hash) now
        (ok (new_session now arrivals))
  over_socket info_hash u now draw (err e) =
      get_peers (udp_session (udp_context app u false draw) info_hash) now (err e)

  -- Tracker.get_peers of either kind, and the peers that it sends.
  unfoldable pub tracker_peers : Bytes → Tracker → Result (Unit {0}) × List Peer
  tracker_peers info_hash (http_tracker u) =
      let now = world.start (http_tracker u) in
      get_peers
        (http_session world.replaced world.depth (world.answers (http_tracker u))
          (http_announcement app info_hash u))
        now (ok now)
  tracker_peers info_hash (udp_tracker u host port) =
      let t = udp_tracker u host port in
      over_socket info_hash u (world.start t) (world.draw t) (world.opens t)

  -- Peer.get_info, for a session's hash.
  abbrev pub peer_info : Bytes → Peer → Result Fields
  peer_info info_hash p =
      get_info world.sha1 world.depth app.peer_id client info_hash (world.sockets p)

  -- TorrentSession.get_info up to where its tasks are started, for a session's hash.
  abbrev pub start_session : Bytes → Magnet → Result (TorrentSession Fields)
  start_session info_hash magnet =
      open_session (from_url world.parse_url) (tracker_peers info_hash) magnet.tr

  -- How demagnetize may end: the link's hash is none, the session does not start, or the session's tasks
  -- run, in some order, until it has an outcome.
  pub data Demagnetizes {Metainfo : Type 0} (compose : Fields → Torrent Metainfo) (magnet : Magnet)
      : Result (Torrent Metainfo) → Type 0 where
    no_hash :
        {e : Error} → from_string magnet.infohash ≡ err e → Demagnetizes compose magnet (err e)
    no_session :
        {e : Error} (h : InfoHash)
        → from_string magnet.infohash ≡ ok h
        → start_session h.as_bytes magnet ≡ err e
        → Demagnetizes compose magnet (err e)
    runs :
        (h : InfoHash) (s : TorrentSession Fields) (tried : List Peer) (phase : Phase Fields)
        (end : Result Fields)
        → from_string magnet.infohash ≡ ok h
        → start_session h.as_bytes magnet ≡ ok s
        → Reaches (peer_info h.as_bytes) s tried phase
        → outcome phase ≡ some end
        → Demagnetizes compose magnet (end >>= λ md. ok (compose md))

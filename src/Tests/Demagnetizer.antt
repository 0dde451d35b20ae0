-- ===== src/Tests/Demagnetizer.antt =====
-- src/demagnetize/core.py at concrete inputs: a link whose one tracker answers over HTTP with one peer, which
-- sends the info.
use demagnetize.Prelude.{
  ◌+◌, ◌≡◌, refl, arith, ◌↔◌, All, false, none, some, List, [], ◌∷◌, ◌++◌, Bytes, codes, length,
}
use demagnetize.Prelude.Hex.{hex}
use demagnetize.Prelude.Order.{eq_bytes}
use demagnetize.Errors.{Result, ok, err, os_error, exception_group, demagnetize_error, returns}
use demagnetize.Bencode.Value.{Fields}
use demagnetize.Peer.Address.{Peer}
use demagnetize.Peer.Contact.{get_info}
use demagnetize.Peer.Contact.Raised.{Raises, get_info-Raises}
use demagnetize.Trackers.Http.Announce.{replied, http_error, http_announce}
use demagnetize.Trackers.Tracker.{Url, Tracker, from_url, get_peers}
use demagnetize.Trackers.Udp.Session.Packs.{Suits}
use demagnetize.Session.{
  TorrentSession, no_info, finishes, ends, opened, here, next, open_trackers, open_session,
}
use demagnetize.Util.Identity.{make_peer_id, key_bytes, key_text, key_text-key_bytes}
use demagnetize.Util.Pathname.{sanitize_pathname, sanitize_pathname_lem, IsNameCharacter}
use demagnetize.Util.InfoHash.{InfoHash, from_string, from_string-hex}
use demagnetize.Demagnetizer.{
  Demagnetizer, Draws, new_app, udp_context, Magnet, Torrent, compose_torrent, World, tracker_peers,
  start_session, Demagnetizes, runs,
}
use demagnetize.Demagnetizer.Numbers.{IsReadyApp, new_app-Suits}
use demagnetize.Tests.Session.{info, hash, short_digest, app_id, socket, a_peer}

abbrev draws : Draws
draws = record { key = 0xBEEF; peer_id = λ i. 23; peer_port = 7 }

abbrev a_url : Url
a_url = record {
  text = codes "http://t.example/a";
  query_string = [];
  path_qs = codes "/a";
  scheme = codes "http";
  host = some (codes "t.example");
  port = none;
}

abbrev a_world : World
a_world = record {
  parse_url = λ url. ok a_url;
  replaced = λ b. b;
  sha1 = short_digest;
  depth = 5;
  start = λ t. 0;
  answers = λ t target now.
      (replied false (codes "d5:peers6:" ++ 10 ∷ 0 ∷ 0 ∷ 1 ∷ 0x1A ∷ 0xE1 ∷ codes "e"), 500);
  opens = λ t. err os_error;
  draw = λ t i. 7 + i;
  sockets = λ p. ok socket;
}

abbrev a_magnet : Magnet
a_magnet = record { infohash = hex hash; tr = codes "http://t.example/a" ∷ [] }

abbrev a_hash : InfoHash
a_hash = record { as_str = hex hash; as_bytes = hash }

abbrev app : Demagnetizer
app = new_app draws

app_runs : app.peer_id ≡ app_id
unfolding make_peer_id
app_runs = refl

abbrev peers_tasks : List (Result (Unit {0}) × List Peer)
peers_tasks = (ok tt, a_peer ∷ []) ∷ []

-- The session when the peer has been contacted.
abbrev contacting_one : TorrentSession Fields
contacting_one = record {
  trackers = (ok tt, []) ∷ [];
  peers_seen = (a_peer.host, a_peer.port) ∷ [];
  waiting = [];
  running = a_peer ∷ [];
  offering = [];
  info_fetched = false;
}

abbrev composed : Torrent Fields
composed = compose_torrent (λ md. md) (codes "abc") 1700000000 a_magnet info

hash_runs : from_string a_magnet.infohash ≡ ok a_hash
hash_runs = (from_string-hex hash (ground arith) refl).1

new_app-Suits_example : IsReadyApp app × Suits (udp_context app a_url false (λ i. 7 + i))
new_app-Suits_example = new_app-Suits draws a_url false (λ i. 7 + i)

key_text-key_bytes_example : (b : Bytes) × (key_bytes 0xBEEF ≡ ok b) × (key_text 0xBEEF ≡ hex b)
key_text-key_bytes_example = key_text-key_bytes 0xBEEF (omega arith)

-- Eight digits at least, and all of them if there are more.
key_text_runs :
    (key_text 0xBEEF ≡ codes "0000beef") × (key_text 0x1_2345_6789_a ≡ codes "123456789a")
key_text_runs = (refl, refl)

-- DEL stays as it is, a null does not.
sanitize_pathname_delete : sanitize_pathname (0x61 ∷ 0x7F ∷ 0 ∷ []) ≡ 0x61 ∷ 0x7F ∷ b'_' ∷ []
unfolding sanitize_pathname
sanitize_pathname_delete = refl

-- A tab is a space, and what would lead out of a directory does not.
sanitize_pathname_runs : sanitize_pathname (9 ∷ codes "../a:b") ≡ codes " .._a_b"
unfolding sanitize_pathname
sanitize_pathname_runs = refl

sanitize_pathname_lem_example :
    All IsNameCharacter (sanitize_pathname (codes "a/b"))
    × (length (sanitize_pathname (codes "a/b")) ≡ length (codes "a/b"))
    × ((sanitize_pathname (codes "a/b") ≡ codes "a/b") ↔ All IsNameCharacter (codes "a/b"))
    × (sanitize_pathname (sanitize_pathname (codes "a/b")) ≡ sanitize_pathname (codes "a/b"))
    × (sanitize_pathname (codes "a/b" ++ 0x7F ∷ codes "c")
        ≡ sanitize_pathname (codes "a/b") ++ 0x7F ∷ sanitize_pathname (codes "c"))
sanitize_pathname_lem_example = sanitize_pathname_lem (codes "a/b") (codes "c")

-- A tracker that cannot be reached sends no peers, and the session's DemagnetizeError leaves its task group.
abbrev failing_world : World
failing_world = record a_world { answers = λ t target now. (http_error, 500) }

tracker_fails :
    tracker_peers app (codes "abc") failing_world hash (Tracker.http_tracker a_url) ≡ (ok tt, [])
unfolding tracker_peers get_peers http_announce
tracker_fails = refl

start_fails :
    start_session app (codes "abc") failing_world hash a_magnet ≡ ok (opened ((ok tt, []) ∷ []))
unfolding open_session open_trackers from_url eq_bytes
start_fails = rw (tracker_fails) refl

not_demagnetized :
    Demagnetizes app
      (codes "abc")
      failing_world
      (compose_torrent (λ md. md) (codes "abc") 1700000000 a_magnet)
      a_magnet
      (err (exception_group demagnetize_error))
not_demagnetized =
    runs a_hash (opened ((ok tt, []) ∷ [])) [] no_info (err (exception_group demagnetize_error))
      hash_runs start_fails
      (next (next here (finishes [] [] (ok tt) refl)) (ends refl refl refl refl)) refl

get_info-Raises_example : Raises (get_info short_digest 5 app_id (codes "abc") hash (ok socket))
get_info-Raises_example =
    get_info-Raises short_digest 5 app_id (codes "abc") hash (ok socket) (returns tt)

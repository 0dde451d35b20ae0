-- ===== src/Trackers/Tracker.antt =====
-- src/demagnetize/trackers/base.py: `Tracker.from_url` and `Tracker.get_peers`, over any tracker's
-- session.
pub mod Sessions
pub mod Outcome
use demagnetize.Prelude.{
  ℕ, ◌+◌, ◌*◌, Bool, true, false, ◌||◌, Option, none, some, List, [], ◌∷◌, Bytes, codes,
  if◌then◌else◌,
}
use demagnetize.Prelude.Order.{eq_bytes}
use demagnetize.Errors.{
  Error, Result, ok, err, ◌>>=◌, ◌>>◌, guard, value_error, tracker_error, tracker_failure,
  timeout_error, os_error,
}
use demagnetize.Peer.Address.{Peer}
use demagnetize.Trackers.Base.{AnnounceEvent, started, stopped}

-- What the library's `URL` tells of a URL; `text` is it without its fragment.
pub record Url : Type 0 where
  pub text : Bytes
  pub query_string : Bytes
  pub path_qs : Bytes
  pub scheme : Bytes
  pub host : Option Bytes
  pub port : Option ℕ

pub data Tracker : Type 0 where
  http_tracker : Url → Tracker
  udp_tracker : Url → Bytes → ℕ → Tracker

abbrev pub present {ℓ} : {A : Type ℓ} → Option A → Result A
present none = err value_error
present (some a) = ok a

-- UDPTracker.__attrs_post_init__, of a URL that has its scheme
abbrev pub udp_of_url : Url → Result Tracker
udp_of_url u = do host ← present u.host; port ← present u.port; ok (udp_tracker u host port)

-- HTTPTracker.SCHEMES
abbrev pub is_http : Bytes → Bool
is_http scheme = eq_bytes scheme (codes "http") || eq_bytes scheme (codes "https")

-- Tracker.from_url; `parse_url` is the library's constructor of URLs.
unfoldable pub from_url : (Bytes → Result Url) → Bytes → Result Tracker
from_url parse_url url = do
  u ← parse_url url
  (if is_http u.scheme
      then ok (http_tracker u)
      else if eq_bytes u.scheme (codes "udp")
      then udp_of_url u
      else err value_error)

-- TRACKER_TIMEOUT and TRACKER_STOP_TIMEOUT, in thousandths of a second
abbrev pub tracker_timeout : ℕ
tracker_timeout = 30 * 1000

abbrev pub tracker_stop_timeout : ℕ
tracker_stop_timeout = 3 * 1000

-- A session with a tracker of any kind, over its states: its clock, and its announcements, each with a
-- deadline.
pub record TrackerSession (S : Type 0) : Type 0 where
  pub clock : S → ℕ
  pub announce : AnnounceEvent → ℕ → S → Result (List Peer) × S

-- The exceptions that `get_peers` logs.
abbrev pub is_caught : Error → Bool
is_caught tracker_error = true
is_caught tracker_failure = true
is_caught timeout_error = true
is_caught os_error = true
is_caught _ = false

abbrev pub catch_tracker : Result (Unit {0}) → Result (Unit {0})
catch_tracker (ok _) = ok tt
catch_tracker (err e) = if is_caught e then ok tt else err e

module _ {S : Type 0} (conn : TrackerSession S) where
  -- The response to the last announcement is not looked at.
  abbrev pub stop : S → Result (Unit {0})
  stop s = (conn.announce stopped (conn.clock s + tracker_stop_timeout) s).0 >>= λ _. ok tt

  -- `for p in peers: await sender.send(p)`, and then the last announcement
  abbrev pub send_peers : Result (List Peer) × S → Result (Unit {0}) × List Peer
  send_peers (ok peers, s) = (stop s, peers)
  send_peers (err e, s) = (err e, [])

  -- `await self.connect(app)`, and what runs on the session
  abbrev pub on_connected : ℕ → Result S → Result (Unit {0}) × List Peer
  on_connected deadline (ok s) = send_peers (conn.announce started deadline s)
  on_connected deadline (err e) = (err e, [])

  -- get_peers from the time `start` on: what it raises, and the peers that it has sent.
  unfoldable pub get_peers : ℕ → Result S → Result (Unit {0}) × List Peer
  get_peers start connect =
      let end = on_connected (start + tracker_timeout) connect in (catch_tracker end.0, end.1)

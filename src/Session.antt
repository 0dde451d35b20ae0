-- ===== src/Session.antt =====
-- src/demagnetize/session.py: `TorrentSession` as a machine whose steps are those of its tasks: the
-- trackers' tasks, the loop over the peers, and the peers' tasks.
pub mod Invariant
pub mod Fates
pub mod Progress
pub mod Download
use demagnetize.Prelude.{
  ℕ, ◌+◌, ◌<◌, ◌≡◌, Bool, true, false, ◌||◌, not, is_empty, Bytes, Option, none, some, List, [],
  ◌∷◌, ◌++◌, length, if◌then◌else◌,
}
use demagnetize.Errors.{
  Error, Result, ok, err, ◌>>=◌, ◌>>◌, guard, in_group, is_value_error, peer_error,
  demagnetize_error,
}
use demagnetize.Peer.Address.{Peer, PeerAddress, address, eq_address}

-- PEERS_PER_MAGNET_LIMIT
abbrev pub peers_per_magnet_limit : ℕ
peers_per_magnet_limit = 30

-- A tracker's task is how it will end and the peers that it has yet to send. A peer's task waits for the
-- limiter, runs get_info, or offers the info that it got.
pub record TorrentSession (Info : Type 0) : Type 0 where
  pub trackers : List (Result (Unit {0}) × List Peer)
  pub peers_seen : List PeerAddress
  pub waiting : List Peer
  pub running : List Peer
  pub offering : List Info
  pub info_fetched : Bool

-- Where a run is: it goes on, the info was received, there is none (DemagnetizeError), or an exception of
-- a task has ended all of them.
pub data Phase (Info : Type 0) : Type 0 where
  going : TorrentSession Info → Phase Info
  received_info : Info → Phase Info
  no_info : Phase Info
  crashed : Error → Phase Info

abbrev pub is_seen : PeerAddress → List PeerAddress → Bool
is_seen a [] = false
is_seen a (b ∷ bs) = eq_address a b || is_seen a bs

-- `except PeerError`
abbrev pub is_peer_error : Error → Bool
is_peer_error peer_error = true
is_peer_error _ = false

module _ {Info : Type 0} where
  -- A peer that get_all_peers takes from the stream: a task is started unless its address was seen.
  abbrev pub take_peer : Peer → TorrentSession Info → TorrentSession Info
  take_peer p s =
      if is_seen (address p) s.peers_seen
      then s
      else record s { peers_seen = address p ∷ s.peers_seen; waiting = p ∷ s.waiting }

  -- The peer that a task contacts which has got past the limiter, if any.
  abbrev pub contacts : Peer → TorrentSession Info → List Peer
  contacts p s = if s.info_fetched then [] else p ∷ []

  -- `if not info_fetched.is_set(): …`
  abbrev pub enter_task : Peer → TorrentSession Info → TorrentSession Info
  enter_task p s = record s { running = contacts p s ++ s.running }

  -- get_info has ended.
  abbrev pub end_task : Result Info → TorrentSession Info → Phase Info
  end_task (ok info) s =
      going (record s { info_fetched = true; offering = s.offering ++ info ∷ [] })
  end_task (err e) s = if is_peer_error e then going s else crashed e

  abbrev pub end_tracker : Result (Unit {0}) → TorrentSession Info → Phase Info
  end_tracker (ok _) s = going s
  end_tracker (err e) s = crashed e

  -- A session that has started its trackers' tasks.
  abbrev pub opened : List (Result (Unit {0}) × List Peer) → TorrentSession Info
  opened trackers = record {
    trackers = trackers;
    peers_seen = [];
    waiting = [];
    running = [];
    offering = [];
    info_fetched = false;
  }

-- `get_info` is what a peer's get_info comes to.
module _ {Info : Type 0} (get_info : Peer → Result Info) where
  -- A step, with the peers that it contacts.
  pub data Step (s : TorrentSession Info) : List Peer → Phase Info → Type 0 where
    sends :
        (xs ys : List (Result (Unit {0}) × List Peer)) (r : Result (Unit {0})) (p : Peer)
        (ps : List Peer)
        → s.trackers ≡ xs ++ (r, p ∷ ps) ∷ ys
        → Step s [] (going (take_peer p (record s { trackers = xs ++ (r, ps) ∷ ys })))
    finishes :
        (xs ys : List (Result (Unit {0}) × List Peer)) (r : Result (Unit {0}))
        → s.trackers ≡ xs ++ (r, []) ∷ ys
        → Step s [] (end_tracker r (record s { trackers = xs ++ ys }))
    starts :
        (xs ys : List Peer) (p : Peer)
        → s.waiting ≡ xs ++ p ∷ ys
        → length s.running + length s.offering < peers_per_magnet_limit
        → Step s (contacts p s) (going (enter_task p (record s { waiting = xs ++ ys })))
    gets :
        (xs ys : List Peer) (p : Peer)
        → s.running ≡ xs ++ p ∷ ys
        → Step s [] (end_task (get_info p) (record s { running = xs ++ ys }))
    receives :
        (info : Info) (rest : List Info) → s.offering ≡ info ∷ rest → Step s [] (received_info info)
    ends : s.trackers ≡ [] → s.waiting ≡ [] → s.running ≡ [] → s.offering ≡ [] → Step s [] no_info

  -- What is reached from a session, and the peers that were contacted on the way.
  pub data Reaches (start : TorrentSession Info) : List Peer → Phase Info → Type 0 where
    here : Reaches start [] (going start)
    next :
        {tried more : List Peer} {s : TorrentSession Info} {phase : Phase Info}
        → Reaches start tried (going s)
        → Step s more phase
        → Reaches start (more ++ tried) phase

-- What get_info of a session returns or raises when it has ended. Its own DemagnetizeError, too, is raised
-- within its task group.
abbrev pub outcome : {Info : Type 0} → Phase Info → Option (Result Info)
outcome (going s) = none
outcome (received_info info) = some (ok info)
outcome no_info = some (in_group (err demagnetize_error))
outcome (crashed e) = some (in_group (err e))

module _ {T : Type 0} (from_url : Bytes → Result T)
    (get_peers : T → Result (Unit {0}) × List Peer) where
  -- A tracker's task is started, or, for a URL that makes a ValueError, none.
  abbrev pub start_task :
      Result T
      → Result (List (Result (Unit {0}) × List Peer))
      → Result (List (Result (Unit {0}) × List Peer))
  start_task (ok tracker) rest = rest >>= λ tasks. ok (get_peers tracker ∷ tasks)
  start_task (err e) rest = if is_value_error e then rest else err e

  -- The loop over the trackers of the magnet link.
  unfoldable pub open_trackers : List Bytes → Result (List (Result (Unit {0}) × List Peer))
  open_trackers [] = ok []
  open_trackers (url ∷ urls) = start_task (from_url url) (open_trackers urls)

  -- get_info, up to where its tasks are started.
  unfoldable pub open_session : {Info : Type 0} → List Bytes → Result (TorrentSession Info)
  open_session urls = do
    guard (not (is_empty urls)) demagnetize_error
    tasks ← open_trackers urls
    ok (opened tasks)

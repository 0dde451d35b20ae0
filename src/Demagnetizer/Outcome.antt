-- ===== src/Demagnetizer/Outcome.antt =====
-- `Demagnetizer.demagnetize` of src/demagnetize/core.py over any trackers and peers.
use demagnetize.Prelude.{ℕ, ◌≡◌, true, false, List, [], Bytes}
use demagnetize.Prelude.Positions.{Among}
use demagnetize.Errors.{
  Error, Result, ok, err, exception_group, os_error, demagnetize_error, is_value_error, is_raised,
  Yields,
}
use demagnetize.Bencode.Value.{Fields}
use demagnetize.Util.InfoHash.{InfoHash}
use demagnetize.Peer.Address.{Peer, address}
use demagnetize.Peer.Contact.{IsInfoOf, is_os_error}
use demagnetize.Trackers.Tracker.{Tracker}
use demagnetize.Trackers.Udp.Session.Packs.{AreDatagrams}
use demagnetize.Session.{is_peer_error, opened}
use demagnetize.Session.Invariant.{count}
use demagnetize.Session.Fates.{EndsAs, Sends}
use demagnetize.Demagnetizer.{
  Draws, new_app, Magnet, Torrent, compose_torrent, World, peer_info, start_session,
}

-- What the libraries promise: the constructor of URLs raises ValueErrors, opening a socket OSErrors or, for
-- a peer within its time, TimeoutErrors, and datagrams consist of bytes.
pub record IsSane (world : World) : Type 0 where
  pub urls :
      (url : Bytes) → Yields (λ _. Unit {0}) (λ e. is_value_error e ≡ true) (world.parse_url url)
  pub opens : (t : Tracker) → Yields (λ s. AreDatagrams s.1) (λ e. e ≡ os_error) (world.opens t)
  pub sockets : (p : Peer) → Yields (λ _. Unit {0}) (λ e. is_os_error e ≡ true) (world.sockets p)

Tasks : Type 0
Tasks = List (Result (Unit {0}) × List Peer)

-- No tracker's task ends with an exception.
abbrev AllEnd : List (Result (Unit {0}) × List Peer) → Type 0
AllEnd tasks = (e : Error) → EndsAs (err e) tasks → ⊥

module _ {Metainfo : Type 0} (decode_dict : Fields → Metainfo) (d : Draws) (client : Bytes)
    (now : ℕ) (world : World) (magnet : Magnet) (h : InfoHash) where
  -- A torrent of the link: its info is one with the link's digest, in canonical order.
  abbrev pub IsTorrentOf : Torrent Metainfo → Type 0
  IsTorrentOf t =
      (md : Fields) × IsInfoOf world.sha1 h.as_bytes md
      × (t ≡ compose_torrent decode_dict client now magnet md)

  contacted : Peer → Result Fields
  contacted p = peer_info (new_app d) client world h.as_bytes p

  -- Why there is no torrent: the link names no trackers; the address of each peer that a tracker sent was
  -- contacted once, and all peers that were contacted failed; or a peer raised an exception of the program
  -- that is no PeerError. The last two leave the session's task group.
  pub data IsNoTorrent : Error → Type 0 where
    no_trackers : magnet.tr ≡ [] → IsNoTorrent demagnetize_error
    gave_up :
        (tasks : List (Result (Unit {0}) × List Peer)) (tried : List Peer)
        → start_session (new_app d) client world h.as_bytes magnet ≡ ok (opened tasks)
        → ((p : Peer) → Sends p tasks → count (address p) tried ≡ 1)
        → ((p : Peer)
            → Among p tried
            → (e : Error) × (peer_info (new_app d) client world h.as_bytes p ≡ err e)
              × (is_peer_error e ≡ true))
        → IsNoTorrent (exception_group demagnetize_error)
    broke :
        {e : Error} (p : Peer)
        → peer_info (new_app d) client world h.as_bytes p ≡ err e
        → is_peer_error e ≡ false
        → is_raised e ≡ true
        → IsNoTorrent (exception_group e)

  abbrev Ended : Result (Torrent Metainfo) → Type 0
  Ended r = Yields IsTorrentOf IsNoTorrent r

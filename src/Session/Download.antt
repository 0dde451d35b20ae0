-- ===== src/Session/Download.antt =====
-- A session of src/demagnetize/session.py over the trackers and the peers as they are modelled.
use demagnetize.Prelude.{ℕ, ◌≡◌, ap, subst, ◌∙◌, some, List, [], ◌∷◌, Bytes}
use demagnetize.Errors.{Result, ok, >>=-eq-ok, Yields-ok}
use demagnetize.Bencode.Value.{Fields}
use demagnetize.Peer.Address.{Peer}
use demagnetize.Peer.Contact.{Socket, get_info, IsInfoOf, get_info-IsInfoOf}
use demagnetize.Session.{
  TorrentSession, Phase, going, received_info, no_info, crashed, opened, Reaches, outcome,
  open_trackers, open_session,
}
use demagnetize.Session.Fates.{Reaches-Fate}

outcome-eq-ok :
    {Info : Type 0} (phase : Phase Info) (info : Info)
    → outcome phase ≡ some (ok info)
    → phase ≡ received_info info
outcome-eq-ok (going s) info h = cc
outcome-eq-ok (received_info i) info h = cc
outcome-eq-ok no_info info h = cc
outcome-eq-ok (crashed e) info h = cc

open_session-eq-ok :
    {T Info : Type 0} (from_url : Bytes → Result T) (get_peers : T → Result (Unit {0}) × List Peer)
    (urls : List Bytes) (s : TorrentSession Info)
    → open_session from_url get_peers urls ≡ ok s
    → (tasks : List (Result (Unit {0}) × List Peer)) × (s ≡ opened tasks)
unfolding open_session
open_session-eq-ok from_url get_peers [] s h = cc
open_session-eq-ok from_url get_peers (url ∷ urls) s h =
    let (tasks, _, made) =
      >>=-eq-ok (open_trackers from_url get_peers (url ∷ urls)) (λ tasks. ok (opened tasks)) h in
    (tasks, cc made)

-- Whatever trackers and peers send and however the tasks are interleaved, an info that a session returns
-- has the magnet link's digest in its encoding, and is in canonical order.
pub open_session-IsInfoOf :
    {T : Type 0} (from_url : Bytes → Result T) (get_peers : T → Result (Unit {0}) × List Peer)
    (urls : List Bytes) (sha1 : Bytes → Bytes) (depth : ℕ) (peer_id client info_hash : Bytes)
    (sockets : Peer → Result Socket) (s : TorrentSession Fields) (tried : List Peer)
    (phase : Phase Fields) (info : Fields)
    → open_session from_url get_peers urls ≡ ok s
    → Reaches (λ p. get_info sha1 depth peer_id client info_hash (sockets p)) s tried phase
    → outcome phase ≡ some (ok info)
    → IsInfoOf sha1 info_hash info
open_session-IsInfoOf from_url get_peers urls sha1 depth peer_id client info_hash sockets s tried
      phase info h run end =
    let contact = λ (p : Peer). get_info sha1 depth peer_id client info_hash (sockets p) in
    let (tasks, fresh) = open_session-eq-ok from_url get_peers urls s h in
    let run' : Reaches contact (opened tasks) tried (received_info info) =
      subst (λ (s, phase). Reaches contact s tried phase)
        (ap (λ s. (s, phase)) fresh
          ∙ ap (λ phase. (opened tasks, phase)) (outcome-eq-ok phase info end))
        run in
    let (p, _, got) = Reaches-Fate contact tasks tried (received_info info) run' in
    Yields-ok (get_info-IsInfoOf sha1 depth peer_id client info_hash (sockets p)) got

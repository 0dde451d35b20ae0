-- ===== src/Trackers/Tracker/Outcome.antt =====
-- `Tracker.get_peers` of src/demagnetize/trackers/base.py over the sessions of both kinds.
use demagnetize.Prelude.{
  ℕ, ◌+◌, ◌≡◌, refl, sym, subst, ap, ◌⊎◌, inl, inr, true, false, Option, none, some, List, [],
  Bytes, codes, length, arith,
}
use demagnetize.Prelude.Order.{eq_bytes, eq_bytes→eq}
use demagnetize.Trackers.Tracker.Sessions.{left_unknown, udp_session}
use demagnetize.Prelude.Int.{pos}
use demagnetize.Errors.{
  Error, Result, ok, err, itself, Yields-ok, Yields-err, Yields-widen, value_error, os_error,
  tracker_failure, timeout_error, is_value_error, Yields, returns, raises, Yields->>=, Yields-if,
}
use demagnetize.Peer.Address.{Peer}
use demagnetize.Trackers.Base.{AnnounceEvent, started, stopped}
use demagnetize.Trackers.Tracker.{
  Url, Tracker, http_tracker, udp_tracker, from_url, present, is_http, TrackerSession, is_caught,
  catch_tracker, send_peers, on_connected, get_peers, tracker_timeout,
}
use demagnetize.Trackers.Http.{HttpAnnounceResponse}
use demagnetize.Trackers.Http.Responses.{Reads, failure}
use demagnetize.Trackers.Udp.{UdpAnnounceResponse, parse_announce_response}
use demagnetize.Trackers.Udp.Session.{is_tracker_failure, UdpTrackerSession, Context}
use demagnetize.Trackers.Udp.Session.Announce.{announce-Concludes}
use demagnetize.Trackers.Udp.Session.Packs.{Suits, IsReady, IsOther, announce-Keeps}
use demagnetize.Trackers.Udp.Session.Exchange.{late, expired}
use demagnetize.Trackers.Udp.Session.Finish.{Finish, answer, unbuilt, failure as failed, too_late}

-- `Ready` holds of the session's states, `P` of the peers of a response, `E` of the exceptions that
-- announcements raise.
module _ {S : Type 0} (conn : TrackerSession S) (Ready : S → Type 0) (P : List Peer → Type 0)
    (E : Error → Type 0)
    (announces : (event : AnnounceEvent) (deadline : ℕ) (s : S)
      → Ready s
      → Yields P E (conn.announce event deadline s).0
        × Ready (conn.announce event deadline s).1) where
  -- What escapes is not caught, and no peers are sent but those of a response.
  abbrev pub Concluded : Result (Unit {0}) × List Peer → Type 0
  Concluded (r, sent) =
      Yields (λ _. Unit {0}) (λ e. E e × (is_caught e ≡ false)) r × ((sent ≡ []) ⊎ P sent)

  abbrev Ran : Result (Unit {0}) × List Peer → Type 0
  Ran (r, sent) = Yields (λ _. Unit {0}) E r × ((sent ≡ []) ⊎ P sent)

  send_peers-Ran :
      (end : Result (List Peer) × S) → Yields P E end.0 × Ready end.1 → Ran (send_peers conn end)
  send_peers-Ran (ok peers, s) (h, ready) =
      (Yields->>= (announces stopped _ s ready).0 λ _ _. returns tt, inr (Yields-ok h refl))
  send_peers-Ran (err e, s) (h, ready) = (raises (Yields-err h refl), inl refl)

  on_connected-Ran :
      (deadline : ℕ) {connect : Result S}
      → Yields Ready E connect
      → Ran (on_connected conn deadline connect)
  on_connected-Ran deadline (returns {a = s} h) = send_peers-Ran _ (announces started deadline s h)
  on_connected-Ran deadline (raises h) = (raises h, inl refl)

  catch_tracker-Yields :
      {r : Result (Unit {0})}
      → Yields (λ _. Unit {0}) E r
      → Yields (λ _. Unit {0}) (λ e. E e × (is_caught e ≡ false)) (catch_tracker r)
  catch_tracker-Yields (returns h) = returns tt
  catch_tracker-Yields (raises {e} h) =
      Yields-if (is_caught e) (λ _. returns tt) λ other. raises (h, other)

  get_peers-Concluded :
      (start : ℕ) (connect : Result S)
      → Yields Ready E connect
      → Concluded (get_peers conn start connect)
  unfolding get_peers
  get_peers-Concluded start connect h =
      let (ran, sent) = on_connected-Ran (start + tracker_timeout) h in
      (catch_tracker-Yields ran, sent)

-- Nothing escapes where all exceptions are caught.
all_caught :
    {E : Error → Type 0} {r : Result (Unit {0})}
    → ((e : Error) → E e → is_caught e ≡ true)
    → Yields (λ _. Unit {0}) (λ e. E e × (is_caught e ≡ false)) r
    → r ≡ ok tt
all_caught k (returns {a = tt} h) = refl
all_caught k (raises {e} (h, other)) = cc (k e h, other)

-- The peers of a response to an announcement over HTTP.
abbrev pub AreReplied : (Bytes → Bytes) → List Peer → Type 0
AreReplied replaced peers =
    (content : Bytes) × (r : HttpAnnounceResponse) × Reads replaced content r × (peers ≡ r.peers)

-- The peers of a response to an announcement over UDP.
abbrev pub AreAnswered : Context → List Peer → Type 0
AreAnswered ctx peers =
    (i : ℕ) × (resp : Bytes) × (r : UdpAnnounceResponse) × (parse_announce_response (ctx.draw i)
        resp ctx.is_ipv6
      ≡ ok r)
    × (peers ≡ r.peers)

-- What opening the socket and announcing over UDP raise.
pub data IsUdpError : Error → Type 0 where
  socket : IsUdpError os_error
  refusal : {e : Error} → is_tracker_failure e ≡ true → IsUdpError e
  out_of_time : IsUdpError timeout_error

udp_error_caught : (e : Error) → IsUdpError e → is_caught e ≡ true
udp_error_caught _ socket = refl
udp_error_caught tracker_failure (refusal h) = refl
udp_error_caught e (refusal h) = cc
udp_error_caught _ out_of_time = refl

Finish-Yields :
    {P : UdpAnnounceResponse → Type 0} {outer clock : ℕ} {r : Result UdpAnnounceResponse}
    → Finish P outer none clock r
    → Yields (λ _. Unit {0}) IsOther r
    → Yields P IsUdpError r
Finish-Yields (answer h early) y = returns h
Finish-Yields (unbuilt h) (raises other) = cc (h, other)
Finish-Yields (failed h) y = raises (refusal h)
Finish-Yields (too_late (late h)) y = raises out_of_time
Finish-Yields (too_late (expired x e h l)) y = cc

udp_announces :
    (ctx : Context) (info_hash : Bytes)
    → Suits ctx
    → length info_hash ≡ 20
    → (event : AnnounceEvent) (deadline : ℕ) (s : UdpTrackerSession) → IsReady s
    → Yields (AreAnswered ctx) IsUdpError ((udp_session ctx info_hash).announce event deadline s).0
      × IsReady ((udp_session ctx info_hash).announce event deadline s).1
udp_announces ctx info_hash suits long event deadline s ready =
    let (taken, went, end) =
      announce-Concludes ctx deadline info_hash event (pos 0) (pos 0) left_unknown s in
    let (packs, ready') =
      announce-Keeps ctx suits deadline info_hash long event (pos 0) (pos 0) left_unknown
        (omega arith) (omega arith) (omega arith) s ready in
    (
      Yields->>= (Finish-Yields end packs)
          λ r (i, from, to, resp, among, e). returns (i, resp, r, e, refl),
      ready',
    )

-- get_peers of a UDP tracker never raises, if opening the socket raises nothing but OSErrors, the hash has
-- 20 bytes and the app's numbers are from the ranges that they are drawn from, whatever datagrams come
-- and when; and it sends no peers but those of a response to one of its transactions.
pub get_peers-udp_session :
    (ctx : Context) (info_hash : Bytes) (start : ℕ) (connect : Result UdpTrackerSession)
    → Suits ctx
    → length info_hash ≡ 20
    → Yields IsReady (λ e. e ≡ os_error) connect
    → (let end = get_peers (udp_session ctx info_hash) start connect in
        (end.0 ≡ ok tt) × ((end.1 ≡ []) ⊎ AreAnswered ctx end.1))
get_peers-udp_session ctx info_hash start connect suits long h =
    let (ends, sent) =
      get_peers-Concluded (udp_session ctx info_hash) IsReady (AreAnswered ctx) IsUdpError
        (udp_announces ctx info_hash suits long) start connect
        (Yields-widen IsUdpError (λ e is. subst IsUdpError (sym is) socket) h) in
    (all_caught udp_error_caught ends, sent)

present-Yields {ℓ} :
    {A : Type ℓ} (o : Option A) → Yields (λ a. o ≡ some a) (λ e. e ≡ value_error) (present o)
present-Yields none = raises refl
present-Yields (some a) = returns refl

-- What is made of a URL: a tracker of the kind that its scheme tells.
pub data IsMade (u : Url) : Tracker → Type 0 where
  over_http : is_http u.scheme ≡ true → IsMade u (http_tracker u)
  over_udp :
      {host : Bytes} {port : ℕ}
      → u.scheme ≡ codes "udp"
      → u.host ≡ some host
      → u.port ≡ some port
      → IsMade u (udp_tracker u host port)

-- If the library's URL raises nothing but ValueErrors, from_url raises nothing else, and a tracker that
-- it makes is of the kind that the URL's scheme tells, a UDP tracker with the URL's host and port.
pub from_url-Yields :
    (parse_url : Bytes → Result Url) (url : Bytes)
    → Yields (λ _. Unit {0}) (λ e. is_value_error e ≡ true) (parse_url url)
    → Yields
        (λ t. (u : Url) × (parse_url url ≡ ok u) × IsMade u t)
        (λ e. is_value_error e ≡ true)
        (from_url parse_url url)
unfolding from_url
from_url-Yields parse_url url h = Yields->>= (itself h) λ u (_, parsed).
    Yields-if (is_http u.scheme) (λ http. returns (u, parsed, over_http http))
      λ _.
        Yields-if (eq_bytes u.scheme (codes "udp"))
          (λ udp.
            Yields->>=
              (Yields-widen (λ e. is_value_error e ≡ true) (λ e is. ap is_value_error is)
                (present-Yields u.host))
              λ host named.
                Yields->>=
                  (Yields-widen (λ e. is_value_error e ≡ true) (λ e is. ap is_value_error is)
                    (present-Yields u.port))
                  λ port numbered.
                    returns (u, parsed, over_udp (eq_bytes→eq _ _ udp) named numbered))
          λ _. raises refl

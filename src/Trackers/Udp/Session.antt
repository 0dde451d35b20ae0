-- ===== src/Trackers/Udp/Session.antt =====
-- src/demagnetize/trackers/udp.py: `UDPTrackerSession` and its `Connection`.
-- The session's state holds the socket (what will arrive and when, what was sent), the clock, and how
-- many transaction IDs were drawn. Times are in thousandths of a second.
pub mod Exchange
pub mod Finish
pub mod Announce
pub mod Packs
use demagnetize.Prelude.{
  ℕ, zero, suc, ◌+◌, ◌-◌, ◌*◌, ◌^◌, ◌≡◌, refl, Bool, true, false, Option, none, some, List, [], ◌∷◌,
  ◌++◌, Bytes, length, min, ltb, leb, if◌then◌else◌,
}
use demagnetize.Prelude.Int.{ℤ, pos}
use demagnetize.Errors.{
  Error, Result, ok, err, tracker_failure, timeout_error, connection_timeout_error, out_of_fuel,
}
use demagnetize.Trackers.Base.{AnnounceEvent}
use demagnetize.Trackers.Udp.{
  build_connection_request, parse_connection_response, AnnounceRequest, build_announce_request,
  UdpAnnounceResponse, parse_announce_response,
}
use Prim.Native.Nat.{max}

pub record Connection : Type 0 where
  pub id : ℤ
  pub expiration : ℕ

pub record UdpTrackerSession : Type 0 where
  pub connection : Option Connection
  pub clock : ℕ
  pub arrivals : List (ℕ × Bytes)
  pub sent : List Bytes
  pub drawn : ℕ

-- A call that may raise, and the state after it.
abbrev pub Run {ℓ} : Type ℓ → Type ℓ
Run A = UdpTrackerSession → Result A × UdpTrackerSession

-- Which deadline has passed: that of the caller, then that of the connection.
abbrev pub overdue : ℕ → Option ℕ → ℕ → Option Error
overdue outer none clock = if leb outer clock then some timeout_error else none
overdue outer (some expiration) clock =
    if leb outer clock
    then some timeout_error
    else if leb expiration clock
    then some connection_timeout_error
    else none

-- The nearest of the deadlines.
abbrev pub nearest : ℕ → Option ℕ → ℕ → ℕ
nearest outer none limit = min limit outer
nearest outer (some expiration) limit = min (min limit outer) expiration

-- The next datagram, if it comes before the time `limit`; else it is that time.
abbrev pub next_arrival :
    ℕ → UdpTrackerSession → List (ℕ × Bytes) → Option Bytes × UdpTrackerSession
next_arrival limit s [] = (none, record s { clock = max s.clock limit })
next_arrival limit s ((at, resp) ∷ rest) =
    if ltb (max s.clock at) limit
    then (some resp, record s { clock = max s.clock at; arrivals = rest })
    else (none, record s { clock = max s.clock limit })

abbrev pub wait : ℕ → UdpTrackerSession → Option Bytes × UdpTrackerSession
wait limit s = next_arrival limit s s.arrivals

-- 15 << n, in seconds
abbrev pub patience : ℕ → ℕ
patience n = 15 * 2 ^ n * 1000

-- `if n < 8: n += 1`
abbrev pub next_round : ℕ → ℕ
next_round n = if ltb n 8 then n + 1 else n

abbrev pub is_tracker_failure : Error → Bool
is_tracker_failure tracker_failure = true
is_tracker_failure _ = false

module _ {ℓ} {A : Type ℓ} where
  -- A deadline that has passed ends what runs under it.
  abbrev pub unless_overdue :
      Option Error → UdpTrackerSession → Result A × UdpTrackerSession → Result A × UdpTrackerSession
  unless_overdue none s next = next
  unless_overdue (some e) s next = (err e, s)

  -- `except TrackerFailure: raise` and `except Exception: continue`
  abbrev pub answered :
      Result A → UdpTrackerSession → Result A × UdpTrackerSession → Result A × UdpTrackerSession
  answered (ok a) s again = (ok a, s)
  answered (err e) s again = if is_tracker_failure e then (err e, s) else again

  -- A datagram has come, or none in time.
  abbrev pub received :
      (Bytes → Result A)
      → Option Bytes
      → UdpTrackerSession
      → Option Error
      → Result A × UdpTrackerSession
      → Result A × UdpTrackerSession
      → Result A × UdpTrackerSession
  received response_parser (some resp) s late again resend = answered (response_parser resp) s again
  received response_parser none s late again resend = unless_overdue late s resend

  -- The loop of `send_receive`, with fuel; `outer` is the deadline that the caller has set.
  unfoldable pub send_receive_loop : Bytes → (Bytes → Result A) → ℕ → Option ℕ → ℕ → ℕ → Run A
  send_receive_loop msg response_parser outer expiration zero n s = (err out_of_fuel, s)
  send_receive_loop msg response_parser outer expiration (suc fuel) n s =
      let s₁ = record s { sent = s.sent ++ msg ∷ [] } in
      let got = wait (nearest outer expiration (s.clock + patience n)) s₁ in
      let again = send_receive_loop msg response_parser outer expiration fuel n got.1 in
      let resend =
        send_receive_loop msg response_parser outer expiration fuel (next_round n) got.1 in
      unless_overdue (overdue outer expiration s.clock) s
        (received response_parser got.0 got.1 (overdue outer expiration got.1.clock) again resend)

  -- send_receive; a round takes a datagram, or time up to the deadline.
  unfoldable pub send_receive : Bytes → (Bytes → Result A) → ℕ → Option ℕ → Run A
  unfolding send_receive_loop
  send_receive msg response_parser outer expiration s =
      send_receive_loop msg response_parser outer expiration
        (suc (length s.arrivals + (outer - s.clock))) 0 s

-- What the app and the tracker give an announcement: peer ID, port, key, the URL's path and query,
-- the socket's family, and the random numbers that are drawn.
pub record Context : Type 0 where
  pub peer_id : Bytes
  pub peer_port : ℕ
  pub key : ℕ
  pub urldata : Bytes
  pub is_ipv6 : Bool
  pub draw : ℕ → ℤ

-- make_transaction_id
abbrev pub make_transaction_id : Context → UdpTrackerSession → ℤ × UdpTrackerSession
make_transaction_id ctx s = (ctx.draw s.drawn, record s { drawn = s.drawn + 1 })

-- A message that was built is sent; one that was not is an error before that.
abbrev pub run_with {ℓ} : {A : Type ℓ} → Result Bytes → (Bytes → Run A) → Run A
run_with (ok msg) next s = next msg s
run_with (err e) next s = (err e, s)

-- `self.connection = Connection(session=self, id=conn_id)`
abbrev pub connected : Result ℤ × UdpTrackerSession → Result Connection × UdpTrackerSession
connected (ok id, s) =
    let conn : Connection = record { id = id; expiration = s.clock + 60 * 1000 } in
    (ok conn, record s { connection = some conn })
connected (err e, s) = (err e, s)

-- `if self.connection is None: …`
abbrev pub connection_or_new : Context → ℕ → Option Connection → Run Connection
connection_or_new ctx outer (some conn) s = (ok conn, s)
connection_or_new ctx outer none s =
    let (tid, s₁) = make_transaction_id ctx s in
    connected (
      run_with (build_connection_request tid)
        (λ msg. send_receive msg (parse_connection_response tid) outer none) s₁)

-- get_connection
unfoldable pub get_connection : Context → ℕ → Run Connection
get_connection ctx outer s = connection_or_new ctx outer s.connection s

-- Connection.announce
unfoldable pub connection_announce :
    Context → Bytes → AnnounceEvent → ℤ → ℤ → ℤ → ℕ → Connection → Run UdpAnnounceResponse
connection_announce ctx info_hash event downloaded uploaded left outer conn s =
    let (tid, s₁) = make_transaction_id ctx s in
    let request : AnnounceRequest = record {
      transaction_id = tid;
      connection_id = conn.id;
      info_hash = info_hash;
      peer_id = ctx.peer_id;
      peer_port = ctx.peer_port;
      key = ctx.key;
      event = event;
      downloaded = downloaded;
      uploaded = uploaded;
      left = left;
      urldata = ctx.urldata;
    } in
    run_with (build_announce_request request)
      (λ msg.
        send_receive msg (λ resp. parse_announce_response tid resp ctx.is_ipv6) outer
          (some conn.expiration))
      s₁

abbrev pub is_connection_timeout : Error → Bool
is_connection_timeout connection_timeout_error = true
is_connection_timeout _ = false

-- `except ConnectionTimeoutError: self.reset_connection()`
abbrev pub or_reset :
    Result UdpAnnounceResponse × UdpTrackerSession
    → (UdpTrackerSession → Result UdpAnnounceResponse × UdpTrackerSession)
    → Result UdpAnnounceResponse × UdpTrackerSession
or_reset (err e, s) again =
    if is_connection_timeout e then again (record s { connection = none }) else (err e, s)
or_reset (ok r, s) again = (ok r, s)

-- The connection is there, or an exception is passed on.
abbrev pub with_connection :
    Result Connection × UdpTrackerSession
    → (Connection → UdpTrackerSession → Result UdpAnnounceResponse × UdpTrackerSession)
    → Result UdpAnnounceResponse × UdpTrackerSession
with_connection (ok conn, s) next = next conn s
with_connection (err e, s) next = (err e, s)

-- The loop of `announce`, with fuel.
unfoldable pub announce_loop :
    Context → Bytes → AnnounceEvent → ℤ → ℤ → ℤ → ℕ → ℕ → Run UdpAnnounceResponse
announce_loop ctx info_hash event downloaded uploaded left outer zero s = (err out_of_fuel, s)
announce_loop ctx info_hash event downloaded uploaded left outer (suc fuel) s =
    with_connection (get_connection ctx outer s) λ conn s₁.
      or_reset (connection_announce ctx info_hash event downloaded uploaded left outer conn s₁)
        λ s₂. announce_loop ctx info_hash event downloaded uploaded left outer fuel s₂

-- announce; a connection that timed out has taken its time, but for one that was there before.
unfoldable pub announce : Context → Bytes → AnnounceEvent → ℤ → ℤ → ℤ → ℕ → Run UdpAnnounceResponse
announce ctx info_hash event downloaded uploaded left outer s =
    announce_loop ctx info_hash event downloaded uploaded left outer (suc (suc (outer - s.clock))) s

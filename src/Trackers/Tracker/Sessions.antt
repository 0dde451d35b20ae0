-- ===== src/Trackers/Tracker/Sessions.antt =====
-- src/demagnetize/trackers/: the sessions of src/demagnetize/trackers/udp.py and http.py as `get_peers`
-- of base.py uses them.
use demagnetize.Prelude.{ℕ, ◌+◌, Bytes, ltb, if◌then◌else◌}
use demagnetize.Prelude.Int.{pos, ℤ}
use demagnetize.Errors.{ok}
use demagnetize.Trackers.Tracker.{TrackerSession}
use demagnetize.Trackers.Http.Announce.{
  HttpAnnouncement, Fetched, overdue_reply, http_announce, request_target,
}
use demagnetize.Trackers.Udp.Session.{UdpTrackerSession, Context, announce}
use demagnetize.Errors.{◌>>=◌}
use Prim.Native.Nat.{max}

-- LEFT
abbrev pub left_unknown : ℤ
left_unknown = pos 65535

abbrev pub udp_session : Context → Bytes → TrackerSession UdpTrackerSession
udp_session ctx info_hash = record {
  clock = λ s. s.clock;
  announce = λ event deadline s.
      let end = announce ctx info_hash event (pos 0) (pos 0) left_unknown deadline s in
      (end.0 >>= (λ r. ok r.peers), end.1);
}

-- A reply that takes some time, under a deadline.
abbrev pub reply_by : ℕ → ℕ → Fetched × ℕ → Fetched × ℕ
reply_by deadline now (reply, time) =
    if ltb (now + time) deadline then (reply, now + time) else (overdue_reply, max now deadline)

-- An HTTP session's state is the clock; `answers` is what the client fetches for a request, and how long
-- that takes. Of the announcement, the event is set for each.
abbrev pub http_session :
    (Bytes → Bytes) → ℕ → (Bytes → ℕ → Fetched × ℕ) → HttpAnnouncement → TrackerSession ℕ
http_session replaced depth answers a = record {
  clock = λ now. now;
  announce = λ event deadline now.
      let request : HttpAnnouncement = record a { event = event } in
      let reply = λ (target : Bytes). reply_by deadline now (answers target now) in
      (
        http_announce replaced depth (λ target. (reply target).0) request >>= (λ r. ok r.peers),
        (reply (request_target request)).1,
      );
}

-- ===== src/Trackers/Udp/Session/Announce.antt =====
-- `UDPTrackerSession.announce` of src/demagnetize/trackers/udp.py, its ends and its responses.
use demagnetize.Prelude.{
  ℕ, zero, suc, ◌+◌, ◌-◌, ◌≤◌, ◌<◌, ◌≡◌, inl, inr, refl, sym, ap, ◌∙◌, true, Option, none, some,
  List, [], ◌++◌, append_assoc, Bytes, arith, Option-cases, if-both, if◌then◌else◌,
}
use demagnetize.Prelude.Int.{ℤ}
use demagnetize.Errors.{Error, Result, ok, err, connection_timeout_error}
use demagnetize.Trackers.Base.{AnnounceEvent}
use demagnetize.Trackers.Udp.{
  parse_connection_response, UdpAnnounceResponse, parse_announce_response,
}
use demagnetize.Trackers.Udp.Session.{
  Connection, UdpTrackerSession, Context, connected, connection_or_new, is_connection_timeout,
  get_connection, connection_announce, or_reset, with_connection, announce_loop, announce,
}
use demagnetize.Trackers.Udp.Session.Exchange.{Took, IsAmong, IsAmong-append, late, expired}
use demagnetize.Trackers.Udp.Session.Finish.{
  build_connection_request-Yields, build_announce_request-Yields, Finish, answer, unbuilt, failure,
  too_late, Finish-map, Finish-err, run_with-Finish,
}

-- Time has passed and datagrams have been taken; random numbers may have been drawn.
pub record Went (taken : List (ℕ × Bytes)) (s s' : UdpTrackerSession) : Type 0 where
  pub arrivals : s.arrivals ≡ taken ++ s'.arrivals
  pub clock : s.clock ≤ s'.clock
  pub drawn : s.drawn ≤ s'.drawn

Went-trans :
    {xs ys : List (ℕ × Bytes)} {s s' s'' : UdpTrackerSession}
    → Went xs s s'
    → Went ys s' s''
    → Went (xs ++ ys) s s''
Went-trans {xs} {ys} {s'' = s''} h k = record {
  arrivals = h.arrivals ∙ (ap (λ a. xs ++ a) k.arrivals ∙ sym (append_assoc xs ys s''.arrivals));
  clock = omega (arith, h.clock, k.clock);
  drawn = omega (arith, h.drawn, k.drawn);
}

-- A random number more was drawn.
Took-Went :
    {taken : List (ℕ × Bytes)} {s s' : UdpTrackerSession}
    → Took taken (record s { drawn = s.drawn + 1 }) s'
    → Went taken s s'
Took-Went took = record {
  arrivals = took.arrivals;
  clock = took.clock;
  drawn = omega (arith, took.drawn);
}

module _ (ctx : Context) (outer : ℕ) where
  -- A response is what a datagram says that came in the run, with the ID of a transaction that was begun
  -- in the run.
  abbrev pub Answers :
      UdpTrackerSession → List (ℕ × Bytes) → UdpTrackerSession → UdpAnnounceResponse → Type 0
  Answers s taken s' r =
      (i : ℕ) × (s.drawn ≤ i)
      × (i < s'.drawn)
      × (resp : Bytes) × IsAmong resp taken
      × (parse_announce_response (ctx.draw i) resp ctx.is_ipv6 ≡ ok r)

  -- How an announcement ends. A connection that timed out shows only if there is an expiration.
  abbrev pub Concludes :
      Option ℕ → UdpTrackerSession → Result UdpAnnounceResponse × UdpTrackerSession → Type 0
  Concludes expiration s (r, s') =
      (taken : List (ℕ × Bytes)) × Went taken s s'
      × Finish (Answers s taken s') outer expiration s'.clock r

  connection_announce-Concludes :
      (info_hash : Bytes) (event : AnnounceEvent) (downloaded uploaded left : ℤ) (conn : Connection)
      (s : UdpTrackerSession)
      → Concludes
          (some conn.expiration)
          s
          (connection_announce ctx info_hash event downloaded uploaded left outer conn s)
  unfolding connection_announce
  connection_announce-Concludes info_hash event downloaded uploaded left conn s =
      let (taken, took, end) =
        run_with-Finish
          {parser = λ resp. parse_announce_response (ctx.draw s.drawn) resp ctx.is_ipv6}
          {outer = outer} {expiration = some conn.expiration} _ (record s { drawn = s.drawn + 1 })
          (build_announce_request-Yields _) in
      (
        taken,
        Took-Went took,
        Finish-map
            (λ r (resp, among, e).
              (s.drawn, omega arith, omega (arith, took.drawn), resp, among, e))
            end,
      )

  -- What is known of a connection that was there or was made.
  abbrev Connects : UdpTrackerSession → Result Connection × UdpTrackerSession → Type 0
  Connects s (ok conn, s') =
      (taken : List (ℕ × Bytes)) × Went taken s s'
      × ((s.connection ≡ none → s.clock < conn.expiration))
  Connects s (err e, s') =
      (taken : List (ℕ × Bytes)) × Went taken s s'
      × Finish {A = Connection} (λ _. Unit {0}) outer none s'.clock (err e)

  connected-Connects :
      {P : ℤ → Type 0} {taken : List (ℕ × Bytes)} (s : UdpTrackerSession) (r : Result ℤ)
      (s' : UdpTrackerSession)
      → Went taken s s'
      → Finish P outer none s'.clock r
      → Connects s (connected (r, s'))
  connected-Connects {taken = taken} s (ok id) s' went end = (
    taken,
    record { arrivals = went.arrivals; clock = went.clock; drawn = went.drawn },
    λ _. omega (arith, went.clock),
  )
  connected-Connects {taken = taken} s (err e) s' went end = (taken, went, Finish-err end)

  connection_or_new-Connects :
      (s : UdpTrackerSession) (found : Option Connection)
      → s.connection ≡ found
      → Connects s (connection_or_new ctx outer found s)
  connection_or_new-Connects s (some conn) e =
      ([], record { arrivals = refl; clock = omega arith; drawn = omega arith }, λ e'. cc)
  connection_or_new-Connects s none e =
      let (taken, took, end) =
        run_with-Finish {parser = parse_connection_response (ctx.draw s.drawn)} {outer = outer}
          {expiration = none} _ (record s { drawn = s.drawn + 1 })
          (build_connection_request-Yields (ctx.draw s.drawn)) in
      connected-Connects s _ _ (Took-Went took) end

  -- A connection that is there may have timed out at once.
  abbrev slack : Option Connection → ℕ
  slack none = 0
  slack (some conn) = 1

  Concludes-after :
      {taken : List (ℕ × Bytes)} {expiration : Option ℕ} {s s' : UdpTrackerSession}
      {end : Result UdpAnnounceResponse × UdpTrackerSession}
      → Went taken s s'
      → Concludes expiration s' end
      → Concludes expiration s end
  Concludes-after {taken} went (more, rest, end) = (
    taken ++ more,
    Went-trans went rest,
    Finish-map
        (λ r (i, from, to, resp, among, e).
          (i, omega (arith, went.drawn, from), to, resp, IsAmong-append resp taken more among, e))
        end,
  )

  with_connection-Concludes :
      (s : UdpTrackerSession) (end : Result Connection × UdpTrackerSession)
      {next : Connection → UdpTrackerSession → Result UdpAnnounceResponse × UdpTrackerSession}
      → Connects s end
      → ((conn : Connection) (s' : UdpTrackerSession)
          → s.clock ≤ s'.clock
          → (s.connection ≡ none → s.clock < conn.expiration)
          → Concludes none s' (next conn s'))
      → Concludes none s (with_connection end next)
  with_connection-Concludes s (ok conn, s') (taken, went, fresh) k =
      Concludes-after went (k conn s' went.clock fresh)
  with_connection-Concludes s (err e, s') (taken, went, end) k = (taken, went, Finish-err end)

  is_connection_timeout_lem :
      (e : Error) → is_connection_timeout e ≡ true → e ≡ connection_timeout_error
  is_connection_timeout_lem connection_timeout_error h = refl
  is_connection_timeout_lem e h = cc

  -- An exception other than `ConnectionTimeoutError` is passed on.
  passed_on :
      {taken : List (ℕ × Bytes)} {s s' : UdpTrackerSession} {e : Error}
      (again : Result UdpAnnounceResponse × UdpTrackerSession)
      → Went taken s s'
      → (is_connection_timeout e ≡ true → ⊥)
      → Finish (Answers s taken s') outer none s'.clock (err e)
      → Concludes none s (if is_connection_timeout e then again else (err e, s'))
  passed_on {taken} {s} {e = e} again went other end =
      if-both (Concludes none s) (is_connection_timeout e) (λ h. absurd (other h))
        λ _. (taken, went, end)

  reset : UdpTrackerSession → UdpTrackerSession
  reset s = record s { connection = none }

  or_reset-Concludes :
      (s : UdpTrackerSession) (x : ℕ) (end : Result UdpAnnounceResponse × UdpTrackerSession)
      (again : UdpTrackerSession → Result UdpAnnounceResponse × UdpTrackerSession)
      → Concludes (some x) s end
      → ((s' : UdpTrackerSession)
          → s.clock ≤ s'.clock
          → x ≤ s'.clock
          → s'.clock < outer
          → Concludes none (reset s') (again (reset s')))
      → Concludes none s (or_reset end again)
  unfolding reset
  or_reset-Concludes s x (ok r, s') again (taken, went, answer h early) k =
      (taken, went, answer h early)
  or_reset-Concludes s x (err e, s') again (taken, went, unbuilt h) k =
      passed_on _ went (λ t. cc (h, is_connection_timeout_lem e t)) (unbuilt h)
  or_reset-Concludes s x (err e, s') again (taken, went, failure h) k =
      passed_on _ went (λ t. cc (h, is_connection_timeout_lem e t)) (failure h)
  or_reset-Concludes s x (err _, s') again (taken, went, too_late (late h)) k =
      (taken, went, too_late (late h))
  or_reset-Concludes s x (err _, s') again (taken, went, too_late (expired y e h l)) k =
      Concludes-after {s' = reset s'}
        (record { arrivals = went.arrivals; clock = went.clock; drawn = went.drawn })
        (k s' went.clock (ground (arith, e, h)) l)

  slack-le :
      (s : UdpTrackerSession) → slack s.connection + (outer - s.clock) < suc (suc (outer - s.clock))
  slack-le s = ground arith

  -- A round that ends with a time-out has taken time, or a connection that was there.
  sooner :
      {fuel : ℕ} (s : UdpTrackerSession) (conn : Connection) (s₁ s₂ : UdpTrackerSession)
      → slack s.connection + (outer - s.clock) < suc fuel
      → s.clock ≤ s₁.clock
      → (s.connection ≡ none → s.clock < conn.expiration)
      → s₁.clock ≤ s₂.clock
      → conn.expiration ≤ s₂.clock
      → s₂.clock < outer
      → 0 + (outer - s₂.clock) < fuel
  sooner s conn s₁ s₂ h passed fresh passed' over early = elim (Option-cases s.connection) [
    | inl new ↦ omega (arith, fresh new, ap slack new)
    | inr (c, old) ↦ omega (arith, ap slack old)
  ]

  announce_loop-Concludes :
      (info_hash : Bytes) (event : AnnounceEvent) (downloaded uploaded left : ℤ) (fuel : ℕ)
      (s : UdpTrackerSession)
      → slack s.connection + (outer - s.clock) < fuel
      → Concludes none s (announce_loop ctx info_hash event downloaded uploaded left outer fuel s)
  unfolding announce_loop get_connection reset
  announce_loop-Concludes info_hash event downloaded uploaded left zero s h = absurd (omega arith)
  announce_loop-Concludes info_hash event downloaded uploaded left (suc fuel) s h =
      with_connection-Concludes s (connection_or_new ctx outer s.connection s)
        (connection_or_new-Connects s s.connection refl)
        λ conn s₁ passed fresh.
          or_reset-Concludes s₁ conn.expiration _ _
            (connection_announce-Concludes info_hash event downloaded uploaded left conn s₁)
            λ s₂ passed' over early.
              announce_loop-Concludes info_hash event downloaded uploaded left fuel (reset s₂)
                (sooner s conn s₁ s₂ h passed fresh passed' over early)

  -- An announcement ends, whatever the tracker sends and when: before the caller's deadline, with what a
  -- datagram says that came in the run and has the ID of a transaction that was begun in the run; or with
  -- an exception of `struct.pack` or `int.to_bytes`, a `TrackerFailure`, or, once the deadline has
  -- passed, a `TimeoutError`. A `ConnectionTimeoutError` is never seen by the caller.
  pub announce-Concludes :
      (info_hash : Bytes) (event : AnnounceEvent) (downloaded uploaded left : ℤ)
      (s : UdpTrackerSession)
      → Concludes none s (announce ctx info_hash event downloaded uploaded left outer s)
  unfolding announce
  announce-Concludes info_hash event downloaded uploaded left s =
      announce_loop-Concludes info_hash event downloaded uploaded left (suc (suc (outer - s.clock)))
        s (slack-le s)

-- ===== src/Trackers/Udp/Session/Exchange.antt =====
-- `send_receive` of src/demagnetize/trackers/udp.py and the ends of its loop.
use demagnetize.Prelude.{
  ℕ, zero, suc, ◌+◌, ◌-◌, ◌≤◌, ◌<◌, ◌≡◌, ◌⊎◌, inl, inr, refl, sym, ap, ◌∙◌, true, Option, none,
  some, List, [], ◌∷◌, ◌++◌, append_assoc, Bytes, arith, length, ltb, leb, ltb→lt, leb→le, if-both,
}
use demagnetize.Errors.{Error, Result, ok, err, timeout_error, connection_timeout_error}
use demagnetize.Trackers.Udp.Session.{
  UdpTrackerSession, overdue, nearest, next_arrival, wait, patience, next_round, is_tracker_failure,
  unless_overdue, answered, received, send_receive_loop, send_receive,
}
use Prim.Native.Nat.{max}
use native.Mathlib.Nat.{one-le-pow}

-- Some of the datagrams that were to arrive have been taken, time has passed, and the session's
-- connection and its count of random numbers are as before.
pub record Took (taken : List (ℕ × Bytes)) (s s' : UdpTrackerSession) : Type 0 where
  pub arrivals : s.arrivals ≡ taken ++ s'.arrivals
  pub clock : s.clock ≤ s'.clock
  pub connection : s'.connection ≡ s.connection
  pub drawn : s'.drawn ≡ s.drawn

pub Took-trans :
    {xs ys : List (ℕ × Bytes)} {s s' s'' : UdpTrackerSession}
    → Took xs s s'
    → Took ys s' s''
    → Took (xs ++ ys) s s''
Took-trans {xs} {ys} {s'' = s''} h k = record {
  arrivals = h.arrivals ∙ (ap (λ a. xs ++ a) k.arrivals ∙ sym (append_assoc xs ys s''.arrivals));
  clock = omega (arith, h.clock, k.clock);
  connection = k.connection ∙ h.connection;
  drawn = k.drawn ∙ h.drawn;
}

-- A datagram is one of those.
abbrev pub IsAmong : Bytes → List (ℕ × Bytes) → Type 0
IsAmong resp [] = ⊥
IsAmong resp ((at, b) ∷ rest) = (b ≡ resp) ⊎ IsAmong resp rest

pub IsAmong-append :
    (resp : Bytes) (xs ys : List (ℕ × Bytes)) → IsAmong resp ys → IsAmong resp (xs ++ ys)
IsAmong-append resp [] ys h = h
IsAmong-append resp (x ∷ xs) ys h = inr (IsAmong-append resp xs ys h)

-- A datagram came in time, or none did and it is the time.
abbrev Waited : ℕ → UdpTrackerSession → Option Bytes × UdpTrackerSession → Type 0
Waited limit s (some resp, s') = (at : ℕ) × Took ((at, resp) ∷ []) s s' × (s'.clock < limit)
Waited limit s (none, s') = Took [] s s' × (s'.clock ≡ max s.clock limit)

vain_wait :
    (limit : ℕ) (s : UdpTrackerSession)
    → Waited limit s (none, record s { clock = max s.clock limit })
vain_wait limit s =
    (record { arrivals = refl; clock = omega arith; connection = refl; drawn = refl }, refl)

next_arrival-Waited :
    (limit : ℕ) (s : UdpTrackerSession) (arrivals : List (ℕ × Bytes))
    → s.arrivals ≡ arrivals
    → Waited limit s (next_arrival limit s arrivals)
next_arrival-Waited limit s [] e = vain_wait limit s
next_arrival-Waited limit s ((at, resp) ∷ rest) e =
    if-both (Waited limit s) (ltb (max s.clock at) limit)
      (λ h. (
        at,
        record { arrivals = e; clock = omega arith; connection = refl; drawn = refl },
        ltb→lt (max s.clock at) limit h,
      ))
      λ _. vain_wait limit s

-- What a deadline that has passed means.
pub data IsLate (outer : ℕ) (expiration : Option ℕ) (clock : ℕ) : Error → Type 0 where
  late : outer ≤ clock → IsLate outer expiration clock timeout_error
  expired :
      (x : ℕ)
      → expiration ≡ some x
      → x ≤ clock
      → clock < outer
      → IsLate outer expiration clock connection_timeout_error

abbrev Overdue : ℕ → Option ℕ → ℕ → Option Error → Type 0
Overdue outer expiration clock none = (clock < outer) × ((x : ℕ) → expiration ≡ some x → clock < x)
Overdue outer expiration clock (some e) = IsLate outer expiration clock e

overdue-Overdue :
    (outer : ℕ) (expiration : Option ℕ) (clock : ℕ)
    → Overdue outer expiration clock (overdue outer expiration clock)
overdue-Overdue outer none clock =
    if-both (Overdue outer none clock) (leb outer clock) (λ h. late (leb→le outer clock h))
      λ h. (ground (arith, h), λ x e. cc)
overdue-Overdue outer (some x) clock =
    if-both (Overdue outer (some x) clock) (leb outer clock) (λ h. late (leb→le outer clock h))
      λ h.
        if-both (Overdue outer (some x) clock) (leb x clock)
          (λ k. expired x refl (leb→le x clock k) (ground (arith, h)))
          λ k. (ground (arith, h), λ y e. ground (arith, k, e))

-- How an exchange ended: a response came that the parser took, or one that names the tracker's failure,
-- or a deadline has passed.
pub data Came {ℓ} {A : Type ℓ} (response_parser : Bytes → Result A) (outer : ℕ)
    (expiration : Option ℕ) (taken : List (ℕ × Bytes)) (clock : ℕ) : Result A → Type ℓ where
  replied :
      {a : A} (resp : Bytes)
      → IsAmong resp taken
      → response_parser resp ≡ ok a
      → clock < outer
      → Came response_parser outer expiration taken clock (ok a)
  failed :
      {e : Error} (resp : Bytes)
      → IsAmong resp taken
      → response_parser resp ≡ err e
      → is_tracker_failure e ≡ true
      → Came response_parser outer expiration taken clock (err e)
  timed_out :
      {e : Error}
      → IsLate outer expiration clock e
      → Came response_parser outer expiration taken clock (err e)

nearest-le :
    (outer : ℕ) (expiration : Option ℕ) (limit : ℕ) → nearest outer expiration limit ≤ outer
nearest-le outer none limit = omega arith
nearest-le outer (some x) limit = omega arith

-- Before the deadlines there is time to wait.
nearest-gt :
    (outer : ℕ) (expiration : Option ℕ) (clock limit : ℕ)
    → Overdue outer expiration clock none
    → clock < limit
    → clock < nearest outer expiration limit
nearest-gt outer none clock limit (h, k) l = omega arith
nearest-gt outer (some x) clock limit (h, k) l = omega (arith, k x refl)

patience-pos : (n : ℕ) → 0 < patience n
patience-pos n = omega (arith, one-le-pow n 2 (omega arith))

module _ {ℓ} {A : Type ℓ} (msg : Bytes) (response_parser : Bytes → Result A) (outer : ℕ)
    (expiration : Option ℕ) where
  abbrev pub Ends : UdpTrackerSession → Result A × UdpTrackerSession → Type ℓ
  Ends s (r, s') =
      (taken : List (ℕ × Bytes)) × Took taken s s'
      × Came response_parser outer expiration taken s'.clock r

  Came-append :
      (taken more : List (ℕ × Bytes)) {clock : ℕ} {r : Result A}
      → Came response_parser outer expiration more clock r
      → Came response_parser outer expiration (taken ++ more) clock r
  Came-append taken more (replied resp among e early) =
      replied resp (IsAmong-append resp taken more among) e early
  Came-append taken more (failed resp among e f) =
      failed resp (IsAmong-append resp taken more among) e f
  Came-append taken more (timed_out h) = timed_out h

  Ends-after :
      {taken : List (ℕ × Bytes)} {s s' : UdpTrackerSession} {end : Result A × UdpTrackerSession}
      → Took taken s s'
      → Ends s' end
      → Ends s end
  Ends-after {taken} took (more, rest, came) =
      (taken ++ more, Took-trans took rest, Came-append taken more came)

  Took-self : (s : UdpTrackerSession) → Took [] s s
  Took-self s = record { arrivals = refl; clock = omega arith; connection = refl; drawn = refl }

  -- A deadline that has passed ends the exchange.
  unless_overdue-Ends :
      {taken : List (ℕ × Bytes)} {s s' : UdpTrackerSession} (late : Option Error)
      {next : Result A × UdpTrackerSession}
      → Took taken s s'
      → Overdue outer expiration s'.clock late
      → (Overdue outer expiration s'.clock none → Ends s next)
      → Ends s (unless_overdue late s' next)
  unless_overdue-Ends none took over k = k over
  unless_overdue-Ends {taken} (some e) took over k = (taken, took, timed_out over)

  answered-Ends :
      {at : ℕ} {s s' : UdpTrackerSession} (resp : Bytes) (r : Result A)
      {again : Result A × UdpTrackerSession}
      → response_parser resp ≡ r
      → Took ((at, resp) ∷ []) s s'
      → s'.clock < outer
      → Ends s again
      → Ends s (answered r s' again)
  answered-Ends resp (ok a) e took early k = (_, took, replied resp (inl refl) e early)
  answered-Ends {s = s} {s' = s'} resp (err e') e took early k =
      if-both (Ends s) (is_tracker_failure e') (λ f. (_, took, failed resp (inl refl) e f)) λ _. k

  received-Ends :
      (limit : ℕ) (s : UdpTrackerSession) (found : Option Bytes) (s' : UdpTrackerSession)
      {again resend : Result A × UdpTrackerSession}
      → Waited limit s (found, s')
      → limit ≤ outer
      → ((at : ℕ) (resp : Bytes) → Took ((at, resp) ∷ []) s s' → Ends s again)
      → (Took [] s s'
          → s'.clock ≡ max s.clock limit
          → Overdue outer expiration s'.clock none
          → Ends s resend)
      → Ends s (received response_parser found s' (overdue outer expiration s'.clock) again resend)
  received-Ends limit s (some resp) s' (at, took, early) near k l =
      answered-Ends resp (response_parser resp) refl took (omega (arith, early)) (k at resp took)
  received-Ends limit s none s' (took, e) near k l =
      unless_overdue-Ends (overdue outer expiration s'.clock) took
        (overdue-Overdue outer expiration s'.clock) (l took e)

  pub send_receive_loop-Ends :
      (fuel n : ℕ) (s : UdpTrackerSession)
      → length s.arrivals + (outer - s.clock) < fuel
      → Ends s (send_receive_loop msg response_parser outer expiration fuel n s)
  unfolding send_receive_loop
  send_receive_loop-Ends zero n s h = absurd (omega arith)
  send_receive_loop-Ends (suc fuel) n s h =
      let limit = nearest outer expiration (s.clock + patience n) in
      let s₁ : UdpTrackerSession = record s { sent = s.sent ++ msg ∷ [] } in
      let got = wait limit s₁ in
      unless_overdue-Ends (overdue outer expiration s.clock) (Took-self s)
        (overdue-Overdue outer expiration s.clock)
        λ in_time.
          Ends-after {taken = []} {s' = s₁}
            (record { arrivals = refl; clock = omega arith; connection = refl; drawn = refl })
            (received-Ends limit s₁ got.0 got.1 (next_arrival-Waited limit s₁ s₁.arrivals refl)
              (nearest-le outer expiration (s.clock + patience n))
              (λ at resp took. Ends-after took (
                send_receive_loop-Ends fuel n got.1
                  (omega (arith, ap length took.arrivals, took.clock))))
              λ took e early. Ends-after took (
                send_receive_loop-Ends fuel (next_round n) got.1 (
                  omega (
                    arith,
                    ap length took.arrivals,
                    e,
                    early.0,
                    nearest-gt outer expiration s.clock (s.clock + patience n) in_time
                        (omega (arith, patience-pos n)),
                  ))))

  -- An exchange ends, whatever the tracker sends and when.
  pub send_receive-Ends :
      (s : UdpTrackerSession) → Ends s (send_receive msg response_parser outer expiration s)
  unfolding send_receive
  send_receive-Ends s =
      send_receive_loop-Ends (suc (length s.arrivals + (outer - s.clock))) 0 s (omega arith)

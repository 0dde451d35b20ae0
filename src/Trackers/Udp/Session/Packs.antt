-- ===== src/Trackers/Udp/Session/Packs.antt =====
-- The numbers that src/demagnetize/trackers/udp.py packs, and their fields.
use demagnetize.Prelude.{
  ℕ, zero, suc, ◌^◌, ◌<◌, ◌≡◌, refl, sym, subst, inl, inr, true, false, Option, none, some, List,
  [], ◌∷◌, ◌++◌, Bytes, IsBytes, arith, length, take, drop, if-both, ◌+◌, ◌-◌, All-take, All-drop,
  length-take, length-drop,
}
use demagnetize.Prelude.Int.{ℤ, pos}
use demagnetize.Errors.{
  Error, Result, ok, err, tracker_failure, Yields, returns, raises, Yields-ok, Yields-map,
}
use demagnetize.Struct.Signed.{IsInt, pack_int-IsInt, unpack_int-IsInt}
use demagnetize.Struct.Layout.{before}
use demagnetize.Trackers.Base.{AnnounceEvent}
use demagnetize.Trackers.Udp.{
  protocol_id, request_fields, build_connection_request, parse_connection_response,
  UdpAnnounceResponse, parse_announce_response,
}
use demagnetize.Trackers.Udp.Requests.{build_announce_request_lem}
use demagnetize.Trackers.Udp.Responses.{parse_connection_response-Yields}
use demagnetize.Trackers.Udp.Session.{
  Connection, UdpTrackerSession, Context, connected, connection_or_new, is_connection_timeout,
  is_tracker_failure, run_with, send_receive, get_connection, connection_announce, or_reset,
  with_connection, announce_loop, announce,
}
use demagnetize.Trackers.Udp.Session.Exchange.{
  Took, IsAmong, Came, replied, failed, timed_out, late, expired, send_receive-Ends,
}
use demagnetize.Trackers.Udp.Session.Finish.{is_pack_error}

-- What the app and the tracker give an announcement fits the fields.
pub record Suits (ctx : Context) : Type 0 where
  pub peer_id : length ctx.peer_id ≡ 20
  pub peer_port : ctx.peer_port < 2 ^ 16
  pub key : ctx.key < 2 ^ 32
  pub draw : (i : ℕ) → IsInt 4 (ctx.draw i)

abbrev pub AreDatagrams : List (ℕ × Bytes) → Type 0
AreDatagrams [] = Unit
AreDatagrams ((at, b) ∷ rest) = IsBytes b × AreDatagrams rest

-- What is to arrive consists of bytes, and so did the ID of the connection.
pub record IsReady (s : UdpTrackerSession) : Type 0 where
  pub connection : (conn : Connection) → s.connection ≡ some conn → IsInt 8 conn.id
  pub arrivals : AreDatagrams s.arrivals

AreDatagrams-rest :
    (taken rest : List (ℕ × Bytes)) → AreDatagrams (taken ++ rest) → AreDatagrams rest
AreDatagrams-rest [] rest h = h
AreDatagrams-rest ((at, b) ∷ taken) rest (h, hs) = AreDatagrams-rest taken rest hs

IsAmong-IsBytes :
    (resp : Bytes) (taken rest : List (ℕ × Bytes))
    → AreDatagrams (taken ++ rest)
    → IsAmong resp taken
    → IsBytes resp
IsAmong-IsBytes resp [] rest h m = absurd m
IsAmong-IsBytes resp ((at, b) ∷ taken) rest (h, hs) (inl e) = subst IsBytes e h
IsAmong-IsBytes resp ((at, b) ∷ taken) rest (h, hs) (inr m) = IsAmong-IsBytes resp taken rest hs m

Took-IsReady :
    {taken : List (ℕ × Bytes)} {s s' : UdpTrackerSession} → Took taken s s' → IsReady s → IsReady s'
Took-IsReady {taken} {s} {s'} took h = record {
  connection = λ conn e. h.connection conn (cc (took.connection, e));
  arrivals = AreDatagrams-rest taken s'.arrivals (subst AreDatagrams took.arrivals h.arrivals);
}

failure_other : (e : Error) → is_tracker_failure e ≡ true → is_pack_error e ≡ false
failure_other tracker_failure h = refl
failure_other e h = cc

abbrev pub IsOther : Error → Type 0
IsOther e = is_pack_error e ≡ false

-- A run ends in a state that is ready, with a value of which `P` holds or an exception that is not from
-- packing.
abbrev pub Keeps {ℓ} : {A : Type ℓ} → (A → Type 0) → Result A × UdpTrackerSession → Type ℓ
Keeps P (r, s) = Yields P IsOther r × IsReady s

Came-Yields :
    {A : Type 0} {parser : Bytes → Result A} {outer : ℕ} {expiration : Option ℕ}
    {taken : List (ℕ × Bytes)} {clock : ℕ} {r : Result A}
    → Came parser outer expiration taken clock r
    → Yields (λ a. (resp : Bytes) × IsAmong resp taken × (parser resp ≡ ok a)) IsOther r
Came-Yields (replied resp among e early) = returns (resp, among, e)
Came-Yields (failed {e} resp among p f) = raises (failure_other e f)
Came-Yields (timed_out (late h)) = raises refl
Came-Yields (timed_out (expired x e h l)) = raises refl

-- A message that can be built is sent, and what comes of it is read from bytes.
run_with-Keeps :
    {A : Type 0} {P : A → Type 0} (parser : Bytes → Result A) (outer : ℕ) (expiration : Option ℕ)
    (built : Result Bytes) (s : UdpTrackerSession)
    → (msg : Bytes) × (built ≡ ok msg)
    → IsReady s
    → ((resp : Bytes) (a : A) → IsBytes resp → parser resp ≡ ok a → P a)
    → Keeps P (run_with built (λ msg. send_receive msg parser outer expiration) s)
run_with-Keeps parser outer expiration (err e) s (msg, e') h k = cc
run_with-Keeps parser outer expiration (ok msg) s _ h k =
    let (taken, took, came) = send_receive-Ends msg parser outer expiration s in
    let s' = (send_receive msg parser outer expiration s).1 in
    let bytes : AreDatagrams (taken ++ s'.arrivals) = subst AreDatagrams took.arrivals h.arrivals in
    (
      Yields-map (Came-Yields came)
          (λ a (resp, among, e). k resp a (IsAmong-IsBytes resp taken s'.arrivals bytes among) e),
      Took-IsReady took h,
    )

connection_request_built :
    (tid : ℤ) → IsInt 4 tid → (msg : Bytes) × (build_connection_request tid ≡ ok msg)
unfolding build_connection_request request_fields
connection_request_built tid h =
    let (id, pid, _, _) = pack_int-IsInt 7 protocol_id (omega arith) in
    let (act, pact, _, _) = pack_int-IsInt 3 (pos 0) (omega arith) in
    let (t, pt, _, _) = pack_int-IsInt 3 tid h in
    (before (id ∷ act ∷ t ∷ []) [], rw (pid, pact, pt) refl)

-- The ID of a connection has come in eight bytes.
connection_id-IsInt :
    (tid : ℤ) (resp : Bytes) (id : ℤ)
    → IsBytes resp
    → parse_connection_response tid resp ≡ ok id
    → IsInt 8 id
connection_id-IsInt tid resp id h e =
    let (_, _, long, read) = Yields-ok (parse_connection_response-Yields tid resp) e in
    subst (IsInt 8) (sym read) (
      unpack_int-IsInt 7 (take 8 (drop 8 resp))
        (omega (arith, length-take 8 (drop 8 resp), length-drop 8 resp, long))
        (All-take _ 8 (drop 8 resp) (All-drop _ 8 resp h)))

module _ (ctx : Context) (suits : Suits ctx) (outer : ℕ) where
  abbrev IsSound : Connection → Type 0
  IsSound conn = IsInt 8 conn.id

  abbrev IsSoundIf : Option Connection → Type 0
  IsSoundIf none = Unit
  IsSoundIf (some conn) = IsSound conn

  connected-Keeps :
      (r : Result ℤ) (s : UdpTrackerSession)
      → Keeps (λ id. IsInt 8 id) (r, s)
      → Keeps IsSound (connected (r, s))
  connected-Keeps _ s (returns h, ready) =
      (returns h, record { connection = λ conn e. subst IsSoundIf e h; arrivals = ready.arrivals })
  connected-Keeps _ s (raises h, ready) = (raises h, ready)

  connection_or_new-Keeps :
      (s : UdpTrackerSession) (found : Option Connection)
      → s.connection ≡ found
      → IsReady s
      → Keeps IsSound (connection_or_new ctx outer found s)
  connection_or_new-Keeps s (some conn) e h = (returns (h.connection conn e), h)
  connection_or_new-Keeps s none e h = connected-Keeps _ _ (
      run_with-Keeps (parse_connection_response (ctx.draw s.drawn)) outer none _
        (record s { drawn = s.drawn + 1 })
        (connection_request_built (ctx.draw s.drawn) (suits.draw s.drawn))
        (record { connection = h.connection; arrivals = h.arrivals })
        (connection_id-IsInt (ctx.draw s.drawn)))

  module _ (info_hash : Bytes) (long : length info_hash ≡ 20) (event : AnnounceEvent)
      (downloaded uploaded left : ℤ) (down_fits : IsInt 8 downloaded) (up_fits : IsInt 8 uploaded)
      (left_fits : IsInt 8 left) where
    abbrev Nothing : UdpAnnounceResponse → Type 0
    Nothing r = Unit

    connection_announce-Keeps :
        (conn : Connection) (s : UdpTrackerSession)
        → IsSound conn
        → IsReady s
        → Keeps Nothing
            (connection_announce ctx info_hash event downloaded uploaded left outer conn s)
    unfolding connection_announce
    connection_announce-Keeps conn s sound h =
        let (packet, built, _) = build_announce_request_lem _ (record {
          connection_id = sound;
          transaction_id = suits.draw s.drawn;
          info_hash = long;
          peer_id = suits.peer_id;
          downloaded = down_fits;
          uploaded = up_fits;
          left = left_fits;
          key = suits.key;
          peer_port = suits.peer_port;
        }) in
        run_with-Keeps (λ resp. parse_announce_response (ctx.draw s.drawn) resp ctx.is_ipv6) outer
          (some conn.expiration) _ (record s { drawn = s.drawn + 1 }) (packet, built)
          (record { connection = h.connection; arrivals = h.arrivals }) λ resp r _ _. tt

    or_reset-Keeps :
        (end : Result UdpAnnounceResponse × UdpTrackerSession)
        (again : UdpTrackerSession → Result UdpAnnounceResponse × UdpTrackerSession)
        → Keeps Nothing end
        → ((s : UdpTrackerSession) → IsReady s → Keeps Nothing (again s))
        → Keeps Nothing (or_reset end again)
    or_reset-Keeps (ok r, s) again h k = h
    or_reset-Keeps (err e, s) again (y, ready) k =
        if-both (Keeps Nothing) (is_connection_timeout e)
          (λ _.
            k (record s { connection = none })
              (record { connection = λ conn e. cc; arrivals = ready.arrivals }))
          λ _. (y, ready)

    with_connection-Keeps :
        (end : Result Connection × UdpTrackerSession)
        (next : Connection → UdpTrackerSession → Result UdpAnnounceResponse × UdpTrackerSession)
        → Keeps IsSound end
        → ((conn : Connection) (s : UdpTrackerSession)
            → IsSound conn
            → IsReady s
            → Keeps Nothing (next conn s))
        → Keeps Nothing (with_connection end next)
    with_connection-Keeps (_, s) next (returns {a = conn} sound, ready) k = k conn s sound ready
    with_connection-Keeps (_, s) next (raises h, ready) k = (raises h, ready)

    announce_loop-Keeps :
        (fuel : ℕ) (s : UdpTrackerSession)
        → IsReady s
        → Keeps Nothing (announce_loop ctx info_hash event downloaded uploaded left outer fuel s)
    unfolding announce_loop get_connection
    announce_loop-Keeps zero s h = (raises refl, h)
    announce_loop-Keeps (suc fuel) s h =
        with_connection-Keeps _ _ (connection_or_new-Keeps s s.connection refl h)
          λ conn s₁ sound ready.
            or_reset-Keeps _ _ (connection_announce-Keeps conn s₁ sound ready)
              λ s₂ ready₂. announce_loop-Keeps fuel s₂ ready₂

    -- An announcement whose numbers fit their fields never fails in packing a request, and leaves the
    -- session ready for the next, whatever comes and when.
    pub announce-Keeps :
        (s : UdpTrackerSession)
        → IsReady s
        → Keeps Nothing (announce ctx info_hash event downloaded uploaded left outer s)
    unfolding announce
    announce-Keeps s h = announce_loop-Keeps (suc (suc (outer - s.clock))) s h

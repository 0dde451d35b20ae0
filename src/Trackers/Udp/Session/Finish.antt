-- ===== src/Trackers/Udp/Session/Finish.antt =====
-- The calls of src/demagnetize/trackers/udp.py that build a request, send it and wait for a response.
use demagnetize.Prelude.{
  ℕ, ◌<◌, ◌≡◌, refl, Bool, true, false, Option, List, [], Bytes, arith, ltb, ◌/◌, ◌^◌,
}
use demagnetize.Prelude.Int.{ℤ, pos, negsuc}
use demagnetize.Errors.{
  Error, Result, ok, err, struct_error, overflow_error, Yields, returns, raises, Yields-if,
  Yields->>=, Yields-err,
}
use demagnetize.Trackers.Base.{udp_value}
use demagnetize.Struct.{encode_uint}
use demagnetize.Struct.Signed.{pack_int}
use demagnetize.Trackers.Udp.{
  request_fields, protocol_id, announce_fields, numwant, build_connection_request, AnnounceRequest,
  build_announce_request,
}
use demagnetize.Trackers.Udp.Session.{UdpTrackerSession, run_with, send_receive, is_tracker_failure}
use demagnetize.Trackers.Udp.Session.Exchange.{
  Took, IsAmong, IsLate, Came, replied, failed, timed_out, send_receive-Ends,
}

-- What `struct.pack` and `int.to_bytes` raise for a number that does not fit.
abbrev pub is_pack_error : Error → Bool
is_pack_error struct_error = true
is_pack_error overflow_error = true
is_pack_error _ = false

abbrev pub IsPackError : Error → Type 0
IsPackError e = is_pack_error e ≡ true

pack_int-Yields : (w : ℕ) (z : ℤ) → Yields (λ _. Unit {0}) IsPackError (pack_int w z)
unfolding pack_int
pack_int-Yields w (pos n) = Yields-if (ltb n (256 ^ w / 2)) (λ _. returns tt) λ _. raises refl
pack_int-Yields w (negsuc n) = Yields-if (ltb n (256 ^ w / 2)) (λ _. returns tt) λ _. raises refl

encode_uint-Yields :
    (e : Error) (w n : ℕ) → IsPackError e → Yields (λ _. Unit {0}) IsPackError (encode_uint e w n)
unfolding encode_uint
encode_uint-Yields e w n h = Yields-if (ltb n (256 ^ w)) (λ _. returns tt) λ _. raises h

request_fields-Yields :
    (id action tid : ℤ) → Yields (λ _. Unit {0}) IsPackError (request_fields id action tid)
unfolding request_fields
request_fields-Yields id action tid = Yields->>= (pack_int-Yields 8 id) λ a _.
    Yields->>= (pack_int-Yields 4 action)
      λ b _. Yields->>= (pack_int-Yields 4 tid) λ c _. returns tt

pub build_connection_request-Yields :
    (tid : ℤ) → Yields (λ _. Unit {0}) IsPackError (build_connection_request tid)
unfolding build_connection_request
build_connection_request-Yields tid =
    Yields->>= (request_fields-Yields protocol_id (pos 0) tid) λ fields _. returns tt

pub build_announce_request-Yields :
    (r : AnnounceRequest) → Yields (λ _. Unit {0}) IsPackError (build_announce_request r)
unfolding build_announce_request announce_fields
build_announce_request-Yields r =
    Yields->>= {P = λ _. Unit {0}}
      (Yields->>= (request_fields-Yields r.connection_id (pos 1) r.transaction_id) λ head _.
        Yields->>= (pack_int-Yields 8 r.downloaded) λ down _.
          Yields->>= (pack_int-Yields 8 r.left) λ left _.
            Yields->>= (pack_int-Yields 8 r.uploaded) λ up _.
              Yields->>= (pack_int-Yields 4 (udp_value r.event)) λ event _.
                Yields->>= (encode_uint-Yields overflow_error 4 r.key refl) λ key _.
                  Yields->>= (pack_int-Yields 4 numwant) λ want _.
                    Yields->>= (encode_uint-Yields struct_error 2 r.peer_port refl)
                      λ port _. returns tt)
      λ fields _. returns tt

-- How a call ends that sends a request: with what a response says, or with an exception.
pub data Finish {ℓ} {A : Type ℓ} (Answer : A → Type 0) (outer : ℕ) (expiration : Option ℕ)
    (clock : ℕ) : Result A → Type ℓ where
  answer : {a : A} → Answer a → clock < outer → Finish Answer outer expiration clock (ok a)
  unbuilt : {e : Error} → is_pack_error e ≡ true → Finish Answer outer expiration clock (err e)
  failure : {e : Error} → is_tracker_failure e ≡ true → Finish Answer outer expiration clock (err e)
  too_late :
      {e : Error} → IsLate outer expiration clock e → Finish Answer outer expiration clock (err e)

Came-Finish :
    {A : Type 0} {parser : Bytes → Result A} {Answer : A → Type 0} {outer : ℕ}
    {expiration : Option ℕ} {taken : List (ℕ × Bytes)} {clock : ℕ} {r : Result A}
    → Came parser outer expiration taken clock r
    → ((a : A) (resp : Bytes) → IsAmong resp taken → parser resp ≡ ok a → Answer a)
    → Finish Answer outer expiration clock r
Came-Finish (replied {a} resp among e early) k = answer (k a resp among e) early
Came-Finish (failed resp among e f) k = failure f
Came-Finish (timed_out h) k = too_late h

pub Finish-map :
    {A : Type 0} {P Q : A → Type 0} {outer : ℕ} {expiration : Option ℕ} {clock : ℕ} {r : Result A}
    → ((a : A) → P a → Q a)
    → Finish P outer expiration clock r
    → Finish Q outer expiration clock r
Finish-map k (answer {a} h early) = answer (k a h) early
Finish-map k (unbuilt h) = unbuilt h
Finish-map k (failure h) = failure h
Finish-map k (too_late h) = too_late h

-- An exception ends a call of any type.
pub Finish-err :
    {A B : Type 0} {P : A → Type 0} {Q : B → Type 0} {outer : ℕ} {expiration : Option ℕ} {clock : ℕ}
    {e : Error}
    → Finish P outer expiration clock (err e)
    → Finish Q outer expiration clock (err e)
Finish-err (unbuilt h) = unbuilt h
Finish-err (failure h) = failure h
Finish-err (too_late h) = too_late h

-- A message is built and sent.
pub run_with-Finish :
    {A : Type 0} {parser : Bytes → Result A} {outer : ℕ} {expiration : Option ℕ}
    (built : Result Bytes) (s : UdpTrackerSession)
    → Yields (λ _. Unit {0}) IsPackError built
    → (let end = run_with built (λ msg. send_receive msg parser outer expiration) s in
        (taken : List (ℕ × Bytes)) × Took taken s end.1
        × Finish
            (λ a. (resp : Bytes) × IsAmong resp taken × (parser resp ≡ ok a))
            outer
            expiration
            end.1.clock
            end.0)
run_with-Finish {parser = parser} {outer} {expiration} (ok msg) s y =
    let (taken, took, came) = send_receive-Ends msg parser outer expiration s in
    (taken, took, Came-Finish came λ a resp among e. (resp, among, e))
run_with-Finish (err e) s y = (
  [],
  record { arrivals = refl; clock = omega arith; connection = refl; drawn = refl },
  unbuilt (Yields-err y refl),
)

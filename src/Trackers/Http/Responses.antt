-- ===== src/Trackers/Http/Responses.antt =====
-- `HTTPAnnounceResponse.parse` and `announce` of src/demagnetize/trackers/http.py on any answer.
use demagnetize.Prelude.{
  ℕ, ◌≡◌, refl, sym, subst, true, false, Option, none, some, Bytes, codes, if◌then◌else◌,
}
use demagnetize.Errors.{
  Error, Result, ok, err, unbencode_error, value_error, tracker_error, tracker_failure,
  timeout_error, is_value_error, Yields, returns, raises, Yields->>=, Yields-guard, Yields-map,
  Yields-widen, itself,
}
use demagnetize.Bencode.Value.{
  Value, Items, Fields, bytes, int, list, dict, nil, cons, get, IsCanonical,
}
use demagnetize.Bencode.Encode.{bencode}
use demagnetize.Bencode.Sound.{unbencode-Yields}
use demagnetize.Peer.Extended.{catch_unbencode, as_dict}
use demagnetize.Trackers.Peers.{unpack_by-Yields}
use demagnetize.Trackers.Utf8.{is_utf8}
use demagnetize.Trackers.Http.{
  HttpAnnounceResponse, peer_ip, peer_port_of, read_peers, original_or_compact, compact6,
  no_failure, read_response, parse_response,
}
use demagnetize.Trackers.Http.Announce.{
  HttpAnnouncement, Fetched, http_error, overdue_reply, replied, catch_bad_response, response_of,
  request_target, http_announce,
}

abbrev IsBad : Error → Type 0
IsBad e = e ≡ value_error

peer_ip-Yields : (v : Option Value) → Yields (λ _. Unit {0}) IsBad (peer_ip v)
peer_ip-Yields none = raises refl
peer_ip-Yields (some (bytes b)) = Yields-guard (is_utf8 b) value_error refl λ _. returns tt
peer_ip-Yields (some (int i)) = raises refl
peer_ip-Yields (some (list vs)) = raises refl
peer_ip-Yields (some (dict d)) = raises refl

peer_port_of-Yields : (v : Option Value) → Yields (λ _. Unit {0}) IsBad (peer_port_of v)
peer_port_of-Yields none = raises refl
peer_port_of-Yields (some (bytes b)) = raises refl
peer_port_of-Yields (some (int i)) = returns tt
peer_port_of-Yields (some (list vs)) = raises refl
peer_port_of-Yields (some (dict d)) = raises refl

as_dict-Yields : (v : Value) → Yields (λ d. v ≡ dict d) IsBad (as_dict v)
unfolding as_dict
as_dict-Yields (bytes b) = raises refl
as_dict-Yields (int i) = raises refl
as_dict-Yields (list vs) = raises refl
as_dict-Yields (dict d) = returns refl

read_peers-Yields : (vs : Items) → Yields (λ _. Unit {0}) IsBad (read_peers vs)
unfolding read_peers
read_peers-Yields nil = returns tt
read_peers-Yields (cons v vs) =
    Yields->>=
      (Yields->>= (as_dict-Yields v) λ p _.
        Yields->>= (peer_ip-Yields (get p (codes "ip")))
          λ ip _. Yields->>= (peer_port_of-Yields (get p (codes "port"))) λ port _. returns tt)
      λ p (_ : Unit {0}). Yields->>= (read_peers-Yields vs) λ ps _. returns tt

original_or_compact-Yields :
    (v : Option Value) → Yields (λ _. Unit {0}) IsBad (original_or_compact v)
original_or_compact-Yields none = returns tt
original_or_compact-Yields (some (bytes b)) = Yields-map (unpack_by-Yields false b) λ _ _. tt
original_or_compact-Yields (some (int i)) = raises refl
original_or_compact-Yields (some (list vs)) = read_peers-Yields vs
original_or_compact-Yields (some (dict d)) = raises refl

compact6-Yields : (v : Option Value) → Yields (λ _. Unit {0}) IsBad (compact6 v)
compact6-Yields none = returns tt
compact6-Yields (some (bytes b)) = Yields-map (unpack_by-Yields true b) λ _ _. tt
compact6-Yields (some (int i)) = raises refl
compact6-Yields (some (list vs)) = raises refl
compact6-Yields (some (dict d)) = raises refl

-- Why a response is refused.
pub data Refuses (content : Bytes) : Error → Type 0 where
  malformed : Refuses content value_error
  reason :
      (d : Fields) (why : Value)
      → content ≡ bencode (dict d)
      → get d (codes "failure reason") ≡ some why
      → Refuses content tracker_failure

caught :
    {A : Type 0} {P : A → Type 0} (e : Error)
    → is_value_error e ≡ true
    → Yields P IsBad (catch_unbencode {A = A} (err e))
unfolding catch_unbencode
caught (unbencode_error m) h = raises refl
caught value_error h = raises refl
caught e h = cc

catch_unbencode-Yields :
    {A : Type 0} {P : A → Type 0} {r : Result A}
    → Yields P (λ e. is_value_error e ≡ true) r
    → Yields P IsBad (catch_unbencode r)
unfolding catch_unbencode
catch_unbencode-Yields (returns h) = returns h
catch_unbencode-Yields (raises {e} h) = caught e h

bad :
    {A : Type 0} {P : A → Type 0} {r : Result A} (content : Bytes)
    → Yields P IsBad r
    → Yields P (Refuses content) r
bad content h =
    Yields-widen (Refuses content) (λ e same. subst (Refuses content) (sym same) malformed) h

module _ (replaced : Bytes → Bytes) where
  -- What a response comes from: a dict that gives no reason for a failure.
  abbrev pub Reads : Bytes → HttpAnnounceResponse → Type 0
  Reads content r =
      (d : Fields) × (content ≡ bencode (dict d))
      × IsCanonical (dict d)
      × (get d (codes "failure reason") ≡ none)
      × (read_response replaced d ≡ ok r)

  no_failure-Yields :
      (content : Bytes) (d : Fields) (v : Option Value)
      → content ≡ bencode (dict d)
      → get d (codes "failure reason") ≡ v
      → Yields (λ _. v ≡ none) (Refuses content) (no_failure v)
  no_failure-Yields content d none e h = returns refl
  no_failure-Yields content d (some why) e h = raises (reason d why e h)

  read_response-Yields :
      (content : Bytes) (d : Fields)
      → content ≡ bencode (dict d)
      → Yields
          (λ _. get d (codes "failure reason") ≡ none)
          (Refuses content)
          (read_response replaced d)
  unfolding read_response
  read_response-Yields content d e =
      Yields->>= (no_failure-Yields content d (get d (codes "failure reason")) e refl) λ _ fine.
        Yields->>= (bad content (original_or_compact-Yields (get d (codes "peers")))) λ peers _.
          Yields->>= (bad content (compact6-Yields (get d (codes "peers6"))))
            λ peers6 _. returns fine

  -- Whatever a tracker answers, parse gives a response only if the answer is the canonical encoding of a
  -- dict without a failure reason, and the response is what is read in that dict; else it raises a
  -- ValueError, or a TrackerFailure if the answer encodes a dict with a failure reason.
  pub parse_response-Yields :
      (depth : ℕ) (content : Bytes)
      → Yields (Reads content) (Refuses content) (parse_response replaced depth content)
  unfolding parse_response
  parse_response-Yields depth content =
      Yields->>= (bad content (catch_unbencode-Yields (unbencode-Yields depth content)))
        λ v (e, c, n). Yields->>= (bad content (as_dict-Yields v)) λ d is.
          let e' : content ≡ bencode (dict d) = cc (e, is) in
          Yields-map (itself (read_response-Yields content d e'))
            λ r (fine, whole). (d, e', subst IsCanonical is c, fine, whole)

-- What `get_peers` catches of it.
pub data IsAnnounceError : Error → Type 0 where
  tracker : IsAnnounceError tracker_error
  failure : IsAnnounceError tracker_failure
  timeout : IsAnnounceError timeout_error

refused :
    {content : Bytes} {e : Error}
    → Refuses content e
    → IsAnnounceError (if is_value_error e then tracker_error else e)
refused malformed = tracker
refused (reason d why e h) = failure

caught_bad :
    {content : Bytes} {P : HttpAnnounceResponse → Type 0} {r : Result HttpAnnounceResponse}
    → Yields P (Refuses content) r
    → Yields P IsAnnounceError (catch_bad_response r)
caught_bad (returns h) = returns h
caught_bad (raises h) = raises (refused h)

response_of-Yields :
    (replaced : Bytes → Bytes) (depth : ℕ) (fetched : Fetched)
    → Yields
        (λ r. (content : Bytes) × (fetched ≡ replied false content) × Reads replaced content r)
        IsAnnounceError
        (response_of (parse_response replaced depth) fetched)
response_of-Yields replaced depth http_error = raises tracker
response_of-Yields replaced depth overdue_reply = raises timeout
response_of-Yields replaced depth (replied true content) = raises tracker
response_of-Yields replaced depth (replied false content) =
    Yields-map (caught_bad (parse_response-Yields replaced depth content)) λ r h. (content, refl, h)

-- Whatever the client fetches, an announcement over HTTP gives a response only if the reply to its
-- request has no error's status and is the encoding of a dict without a failure reason, in which the
-- response is read; else it raises TrackerError, TrackerFailure, or the caller's TimeoutError.
pub http_announce-Yields :
    (replaced : Bytes → Bytes) (depth : ℕ) (fetch : Bytes → Fetched) (a : HttpAnnouncement)
    → Yields
        (λ r.
          (content : Bytes) × (fetch (request_target a) ≡ replied false content)
          × Reads replaced content r)
        IsAnnounceError
        (http_announce replaced depth fetch a)
unfolding http_announce
http_announce-Yields replaced depth fetch a =
    response_of-Yields replaced depth (fetch (request_target a))

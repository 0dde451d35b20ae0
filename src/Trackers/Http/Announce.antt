-- ===== src/Trackers/Http/Announce.antt =====
-- src/demagnetize/trackers/http.py: `HTTPTrackerSession.announce`, with the request that it makes.
use demagnetize.Prelude.{
  ℕ, ◌/◌, ◌%◌, ◌+◌, ◌-◌, ◌≡◌, refl, Bool, true, false, ◌&&◌, ◌||◌, List, [], ◌∷◌, ◌++◌, Bytes,
  codes, is_empty, ltb, leb, ◌==◌, if◌then◌else◌,
}
use demagnetize.Prelude.Int.{ℤ, pos}
use demagnetize.Errors.{Result, ok, err, tracker_error, timeout_error, is_value_error}
use demagnetize.Bencode.Encode.{print_int}
use demagnetize.Util.Identity.{key_text}
use demagnetize.Trackers.Base.{AnnounceEvent, started, http_value}
use demagnetize.Trackers.Udp.{numwant}
use demagnetize.Trackers.Http.{HttpAnnounceResponse, parse_response}

-- urllib.parse.quote: letters, digits and "_.-~/" stand for themselves.
abbrev pub is_safe : ℕ → Bool
is_safe c =
    (leb b'a' c && leb c b'z')
    || (leb b'A' c && leb c b'Z')
    || (leb b'0' c && leb c b'9')
    || (c == b'_')
    || (c == b'.')
    || (c == b'-')
    || (c == b'~')
    || (c == b'/')

abbrev pub upper_hex : ℕ → ℕ
upper_hex d = if ltb d 10 then b'0' + d else b'A' + (d - 10)

unfoldable pub quote : Bytes → Bytes
quote [] = []
quote (c ∷ cs) =
    let rest = quote cs in
    if is_safe c then c ∷ rest else b'%' ∷ upper_hex (c / 16) ∷ upper_hex (c % 16) ∷ rest

-- What an announcement over HTTP is made from. The URL is without its fragment.
pub record HttpAnnouncement : Type 0 where
  pub url : Bytes
  pub query_string : Bytes
  pub info_hash : Bytes
  pub peer_id : Bytes
  pub peer_port : ℕ
  pub key : ℕ
  pub event : AnnounceEvent
  pub downloaded : ℤ
  pub uploaded : ℤ
  pub left : ℤ

-- The parameters that are always there, with their names.
abbrev pub fixed_params : HttpAnnouncement → List (Bytes × Bytes)
fixed_params a =
    (codes "info_hash", quote a.info_hash)
    ∷ (codes "peer_id", quote a.peer_id)
    ∷ (codes "port", print_int (pos a.peer_port))
    ∷ (codes "uploaded", print_int a.uploaded)
    ∷ (codes "downloaded", print_int a.downloaded)
    ∷ (codes "left", print_int a.left)
    ∷ (codes "numwant", print_int numwant)
    ∷ (codes "key", quote (key_text a.key))
    ∷ (codes "compact", codes "1")
    ∷ []

-- `if event.http_value: …`
abbrev pub event_param : AnnounceEvent → List (Bytes × Bytes)
event_param e = if is_empty (http_value e) then [] else (codes "event", http_value e) ∷ []

-- name=value&name=value…
abbrev pub query_of : List (Bytes × Bytes) → Bytes
query_of [] = []
query_of ((name, value) ∷ []) = name ++ b'=' ∷ value
query_of ((name, value) ∷ p ∷ ps) = name ++ b'=' ∷ value ++ b'&' ∷ query_of (p ∷ ps)

-- The URL that is asked for.
unfoldable pub request_target : HttpAnnouncement → Bytes
request_target a =
    a.url
    ++ (if is_empty a.query_string then b'?' else b'&')
      ∷ query_of (fixed_params a ++ event_param a.event)

-- What `client.get` comes to: an HTTPError, a response and whether its status is an error's, or the
-- deadline of the caller.
pub data Fetched : Type 0 where
  http_error overdue_reply : Fetched
  replied : Bool → Bytes → Fetched

-- `except ValueError as e: raise TrackerError(…)`
abbrev pub catch_bad_response : Result HttpAnnounceResponse → Result HttpAnnounceResponse
catch_bad_response (ok r) = ok r
catch_bad_response (err e) = err (if is_value_error e then tracker_error else e)

abbrev pub response_of :
    (Bytes → Result HttpAnnounceResponse) → Fetched → Result HttpAnnounceResponse
response_of parser http_error = err tracker_error
response_of parser overdue_reply = err timeout_error
response_of parser (replied true content) = err tracker_error
response_of parser (replied false content) = catch_bad_response (parser content)

-- HTTPTrackerSession.announce; `fetch` is the client's get.
unfoldable pub http_announce :
    (Bytes → Bytes) → ℕ → (Bytes → Fetched) → HttpAnnouncement → Result HttpAnnounceResponse
http_announce replaced depth fetch a =
    response_of (parse_response replaced depth) (fetch (request_target a))

request_target_runs :
    request_target (record {
      url = codes "http://t.example/a";
      query_string = [];
      info_hash = 0xAF ∷ 0x20 ∷ codes "ab~";
      peer_id = codes "-DM-";
      peer_port = 6881;
      key = 0xBEEF;
      event = started;
      downloaded = pos 0;
      uploaded = pos 0;
      left = pos 65535;
    })
    ≡ codes
        "http://t.example/a?info_hash=%AF%20ab~&peer_id=-DM-&port=6881&uploaded=0&downloaded=0&left=65535&numwant=50&key=0000beef&compact=1&event=started"
unfolding request_target quote print_int demagnetize.Prelude.Decimal.decimal
request_target_runs = refl

-- ===== src/Trackers/Udp/Requests.antt =====
-- The requests of src/demagnetize/trackers/udp.py as BEP 15 and BEP 41 lay them out.
use demagnetize.Prelude.{
  ℕ, zero, suc, ◌^◌, ◌≤◌, ◌<◌, ◌≡◌, refl, ap, ◌∙◌, [], ◌∷◌, ◌++◌, Bytes, arith, length, take, drop,
  replicate, length-drop, take-append, take-append-drop, if◌then◌else◌, ◌==◌, drop-append,
}
use demagnetize.Prelude.Int.{pos}
use demagnetize.Prelude.BigEndian.{big_endian, length-big_endian, from_bytes, from_bytes-big_endian}
use demagnetize.Errors.{ok, overflow_error, struct_error}
use demagnetize.Struct.{encode_uint_lem}
use demagnetize.Struct.Signed.{unpack_int, IsInt, pack_int-IsInt}
use demagnetize.Struct.Layout.{before, field_at, drop-before}
use demagnetize.Trackers.Base.{AnnounceEvent, announced, completed, started, stopped, udp_value}
use demagnetize.Trackers.Udp.{
  numwant, int_at, request_fields, AnnounceRequest, url_options, announce_fields,
  build_announce_request,
}

-- How a tracker reads the options behind an announcement: the data of those of type 2.
abbrev pub read_options : ℕ → Bytes → Bytes
read_options zero b = []
read_options (suc fuel) (t ∷ n ∷ b) =
    let rest = read_options fuel (drop n b) in if t == 2 then take n b ++ rest else []
read_options (suc fuel) _ = []

-- Any data is put into options that hold it, whatever its length.
read_options-url_options :
    (fuel : ℕ) (ud : Bytes) → length ud ≤ fuel → read_options fuel (url_options fuel ud) ≡ ud
unfolding url_options
read_options-url_options zero [] h = refl
read_options-url_options zero (b ∷ ud) h = absurd (omega arith)
read_options-url_options (suc fuel) [] h = refl
read_options-url_options (suc fuel) (b ∷ ud) h =
    let seg = take 255 (b ∷ ud) in
    let more = url_options fuel (drop 255 (b ∷ ud)) in
    cc (
      take-append (length seg) seg more refl,
      drop-append (length seg) seg more refl,
      read_options-url_options fuel (drop 255 (b ∷ ud)) (omega (arith, length-drop 255 (b ∷ ud))),
      take-append-drop 255 (b ∷ ud),
    )

-- An announcement whose numbers fit their fields.
pub record Fits (r : AnnounceRequest) : Type 0 where
  pub connection_id : IsInt 8 r.connection_id
  pub transaction_id : IsInt 4 r.transaction_id
  pub info_hash : length r.info_hash ≡ 20
  pub peer_id : length r.peer_id ≡ 20
  pub downloaded : IsInt 8 r.downloaded
  pub uploaded : IsInt 8 r.uploaded
  pub left : IsInt 8 r.left
  pub key : r.key < 2 ^ 32
  pub peer_port : r.peer_port < 2 ^ 16

-- What a tracker reads in a packet, field by field.
pub record Announces (r : AnnounceRequest) (packet : Bytes) : Type 0 where
  pub connection_id : int_at 0 8 packet ≡ r.connection_id
  pub action : int_at 8 4 packet ≡ pos 1
  pub transaction_id : int_at 12 4 packet ≡ r.transaction_id
  pub info_hash : take 20 (drop 16 packet) ≡ r.info_hash
  pub peer_id : take 20 (drop 36 packet) ≡ r.peer_id
  pub downloaded : int_at 56 8 packet ≡ r.downloaded
  pub left : int_at 64 8 packet ≡ r.left
  pub uploaded : int_at 72 8 packet ≡ r.uploaded
  pub event : int_at 80 4 packet ≡ udp_value r.event
  pub address : take 4 (drop 84 packet) ≡ replicate 4 0
  pub key : from_bytes (take 4 (drop 88 packet)) ≡ r.key
  pub want : int_at 92 4 packet ≡ numwant
  pub port : from_bytes (take 2 (drop 96 packet)) ≡ r.peer_port
  pub urldata : read_options (length r.urldata) (drop 98 packet) ≡ r.urldata

udp_value-IsInt : (e : AnnounceEvent) → IsInt 4 (udp_value e)
udp_value-IsInt announced = omega arith
udp_value-IsInt completed = omega arith
udp_value-IsInt started = omega arith
udp_value-IsInt stopped = omega arith

-- An announcement whose numbers fit their fields, and whose hash and peer ID have 20 bytes, is built, and
-- the packet holds each of its parts at the place that BEP 15 gives it and, whatever the length of the
-- URL's data, that data in the options of BEP 41 behind them.
pub build_announce_request_lem :
    (r : AnnounceRequest)
    → Fits r
    → (packet : Bytes) × (build_announce_request r ≡ ok packet) × Announces r packet
unfolding build_announce_request announce_fields request_fields
build_announce_request_lem r f =
    let (id, pid, lid, uid) = pack_int-IsInt 7 r.connection_id f.connection_id in
    let (act, pact, lact, uact) = pack_int-IsInt 3 (pos 1) (omega arith) in
    let (tid, ptid, ltid, utid) = pack_int-IsInt 3 r.transaction_id f.transaction_id in
    let (down, pdown, ldown, udown) = pack_int-IsInt 7 r.downloaded f.downloaded in
    let (left, pleft, lleft, uleft) = pack_int-IsInt 7 r.left f.left in
    let (up, pup, lup, uup) = pack_int-IsInt 7 r.uploaded f.uploaded in
    let (ev, pev, lev, uev) = pack_int-IsInt 3 (udp_value r.event) (udp_value-IsInt r.event) in
    let (want, pwant, lwant, uwant) = pack_int-IsInt 3 numwant (omega arith) in
    let key = big_endian 4 r.key in
    let port = big_endian 2 r.peer_port in
    let lkey : length key ≡ 4 = length-big_endian 4 r.key in
    let lport : length port ≡ 2 = length-big_endian 2 r.peer_port in
    let peer : take 20 (r.peer_id ++ replicate 20 0) ≡ r.peer_id =
      take-append 20 r.peer_id _ f.peer_id in
    let options = url_options (length r.urldata) r.urldata in
    (
      before
          (id
            ∷ act
            ∷ tid
            ∷ r.info_hash
            ∷ r.peer_id
            ∷ down
            ∷ left
            ∷ up
            ∷ ev
            ∷ replicate 4 0
            ∷ key
            ∷ want
            ∷ port
            ∷ [])
          options,
      cc (
        pid,
        pact,
        ptid,
        pdown,
        pleft,
        pup,
        pev,
        pwant,
        peer,
        encode_uint_lem overflow_error 4 r.key (omega (arith, f.key)),
        encode_uint_lem struct_error 2 r.peer_port (omega (arith, f.peer_port)),
      ),
      record {
        connection_id = ap unpack_int (field_at 0 8 [] id _ refl lid) ∙ uid;
        action = ap unpack_int (field_at 8 4 (id ∷ []) act _ (omega arith) lact) ∙ uact;
        transaction_id =
            ap unpack_int (field_at 12 4 (id ∷ act ∷ []) tid _ (omega arith) ltid) ∙ utid;
        info_hash = field_at 16 20 (id ∷ act ∷ tid ∷ []) r.info_hash _ (omega arith) f.info_hash;
        peer_id =
            field_at 36 20 (id ∷ act ∷ tid ∷ r.info_hash ∷ []) r.peer_id _
              (omega (arith, f.info_hash)) f.peer_id;
        downloaded =
            ap unpack_int (
              field_at 56 8 (id ∷ act ∷ tid ∷ r.info_hash ∷ r.peer_id ∷ []) down _
                (omega (arith, f.info_hash, f.peer_id)) ldown)
            ∙ udown;
        left =
            ap unpack_int (
              field_at 64 8 (id ∷ act ∷ tid ∷ r.info_hash ∷ r.peer_id ∷ down ∷ []) left _
                (omega (arith, f.info_hash, f.peer_id)) lleft)
            ∙ uleft;
        uploaded =
            ap unpack_int (
              field_at 72 8 (id ∷ act ∷ tid ∷ r.info_hash ∷ r.peer_id ∷ down ∷ left ∷ []) up _
                (omega (arith, f.info_hash, f.peer_id)) lup)
            ∙ uup;
        event =
            ap unpack_int (
              field_at 80 4 (id ∷ act ∷ tid ∷ r.info_hash ∷ r.peer_id ∷ down ∷ left ∷ up ∷ []) ev _
                (omega (arith, f.info_hash, f.peer_id)) lev)
            ∙ uev;
        address =
            field_at 84 4 (id ∷ act ∷ tid ∷ r.info_hash ∷ r.peer_id ∷ down ∷ left ∷ up ∷ ev ∷ [])
              (replicate 4 0) _ (omega (arith, f.info_hash, f.peer_id)) refl;
        key =
            ap from_bytes (
              field_at 88 4
                (id
                  ∷ act
                  ∷ tid
                  ∷ r.info_hash
                  ∷ r.peer_id
                  ∷ down
                  ∷ left
                  ∷ up
                  ∷ ev
                  ∷ replicate 4 0
                  ∷ [])
                key _ (omega (arith, f.info_hash, f.peer_id)) lkey)
            ∙ from_bytes-big_endian 4 r.key (omega (arith, f.key));
        want =
            ap unpack_int (
              field_at 92 4
                (id
                  ∷ act
                  ∷ tid
                  ∷ r.info_hash
                  ∷ r.peer_id
                  ∷ down
                  ∷ left
                  ∷ up
                  ∷ ev
                  ∷ replicate 4 0
                  ∷ key
                  ∷ [])
                want _ (omega (arith, f.info_hash, f.peer_id)) lwant)
            ∙ uwant;
        port =
            ap from_bytes (
              field_at 96 2
                (id
                  ∷ act
                  ∷ tid
                  ∷ r.info_hash
                  ∷ r.peer_id
                  ∷ down
                  ∷ left
                  ∷ up
                  ∷ ev
                  ∷ replicate 4 0
                  ∷ key
                  ∷ want
                  ∷ [])
                port options (omega (arith, f.info_hash, f.peer_id)) lport)
            ∙ from_bytes-big_endian 2 r.peer_port (omega (arith, f.peer_port));
        urldata =
            ap (λ b. read_options (length r.urldata) b)
              (drop-before 98
                (id
                  ∷ act
                  ∷ tid
                  ∷ r.info_hash
                  ∷ r.peer_id
                  ∷ down
                  ∷ left
                  ∷ up
                  ∷ ev
                  ∷ replicate 4 0
                  ∷ key
                  ∷ want
                  ∷ port
                  ∷ [])
                options (omega (arith, f.info_hash, f.peer_id)))
            ∙ read_options-url_options (length r.urldata) r.urldata (omega arith);
      },
    )

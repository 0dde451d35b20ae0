-- ===== src/Trackers/Udp/Responses.antt =====
-- The responses of BEP 15 and their parsers in src/demagnetize/trackers/udp.py.
use demagnetize.Prelude.{
  ℕ, ◌+◌, ◌*◌, ◌≤◌, ◌≡◌, ◌≢◌, refl, sym, ap, ◌∙◌, Bool, true, false, not, List, [], ◌∷◌, ◌++◌,
  Bytes, arith, length, drop, leb, le→leb, leb→le, length-drop, subst, if◌then◌else◌,
}
use demagnetize.Prelude.Int.{ℤ, pos, eq_ℤ, eq_ℤ_iff}
use demagnetize.Errors.{
  Error, ok, err, guard, value_error, struct_error, tracker_failure, Yields, returns, raises,
  Yields->>=, Yields-guard, Yields-map, Yields-widen,
}
use demagnetize.Struct.Signed.{unpack_int}
use demagnetize.Struct.Layout.{before, length-before, field_at, drop-before}
use demagnetize.Trackers.Peers.{
  Swarm, IsSwarm, has_ipv6, packed_swarm, named_swarm, unpack_by-packed_swarm, unpack_by-Yields,
}
use demagnetize.Peer.Address.{Peer}
use demagnetize.Trackers.Base.{unpack_peers, unpack_peers6}
use demagnetize.Trackers.Udp.{
  int_at, raise_error_response, parse_connection_response, parse_announce_response,
}

-- Four or eight bytes that stand for a number.
abbrev pub Spells : ℕ → Bytes → ℤ → Type 0
Spells w b z = (length b ≡ w) × (unpack_int b ≡ z)

-- A response that starts with four bytes for action 0, four for the transaction's ID and eight for a
-- connection ID is read as that connection ID, whatever follows it.
pub parse_connection_response_lem :
    (action tid cid extra : Bytes) (transaction_id connection_id : ℤ)
    → Spells 4 action (pos 0)
    → Spells 4 tid transaction_id
    → Spells 8 cid connection_id
    → parse_connection_response transaction_id (before (action ∷ tid ∷ cid ∷ []) extra)
      ≡ ok connection_id
unfolding parse_connection_response raise_error_response
parse_connection_response_lem action tid cid extra t c (la, ua) (lt, ut) (lc, uc) =
    let packet = before (action ∷ tid ∷ cid ∷ []) extra in
    let len = length-before (action ∷ tid ∷ cid ∷ []) extra in
    let at0 : int_at 0 4 packet ≡ pos 0 =
      ap unpack_int (field_at 0 4 [] action (tid ++ (cid ++ extra)) refl la) ∙ ua in
    let at4 : int_at 4 4 packet ≡ t =
      ap unpack_int (field_at 4 4 (action ∷ []) tid (cid ++ extra) (omega arith) lt) ∙ ut in
    let at8 : int_at 8 8 packet ≡ c =
      ap unpack_int (field_at 8 8 (action ∷ tid ∷ []) cid extra (omega arith) lc) ∙ uc in
    rw (
      le→leb 8 (length packet) (omega (arith, len)),
      le→leb 16 (length packet) (omega (arith, len)),
      at0,
      at4,
      at8,
      (eq_ℤ_iff t t).1 refl,
    )

parse_announce_response-before :
    (action tid interval leechers seeders blob : Bytes) (transaction_id i l s : ℤ) (is_ipv6 : Bool)
    (peers : List Peer)
    → Spells 4 action (pos 1)
    → Spells 4 tid transaction_id
    → Spells 4 interval i
    → Spells 4 leechers l
    → Spells 4 seeders s
    → (if is_ipv6 then unpack_peers6 blob else unpack_peers blob) ≡ ok peers
    → parse_announce_response transaction_id
        (before (action ∷ tid ∷ interval ∷ leechers ∷ seeders ∷ []) blob)
        is_ipv6
      ≡ ok (record { interval = i; leechers = l; seeders = s; peers = peers })
unfolding parse_announce_response raise_error_response
parse_announce_response-before a tid n l s blob t i' l' s' v6 peers (la, ua) (lt, ut) (li, ui)
      (ll, ul) (ls, us) e =
    let packet = before (a ∷ tid ∷ n ∷ l ∷ s ∷ []) blob in
    let len = length-before (a ∷ tid ∷ n ∷ l ∷ s ∷ []) blob in
    let at0 : int_at 0 4 packet ≡ pos 1 = ap unpack_int (field_at 0 4 [] a _ refl la) ∙ ua in
    let at4 : int_at 4 4 packet ≡ t =
      ap unpack_int (field_at 4 4 (a ∷ []) tid _ (omega arith) lt) ∙ ut in
    let at8 : int_at 8 4 packet ≡ i' =
      ap unpack_int (field_at 8 4 (a ∷ tid ∷ []) n _ (omega arith) li) ∙ ui in
    let at12 : int_at 12 4 packet ≡ l' =
      ap unpack_int (field_at 12 4 (a ∷ tid ∷ n ∷ []) l _ (omega arith) ll) ∙ ul in
    let at16 : int_at 16 4 packet ≡ s' =
      ap unpack_int (field_at 16 4 (a ∷ tid ∷ n ∷ l ∷ []) s blob (omega arith) ls) ∙ us in
    let rest : drop 20 packet ≡ blob =
      drop-before 20 (a ∷ tid ∷ n ∷ l ∷ s ∷ []) blob (omega arith) in
    rw (
      le→leb 8 (length packet) (omega (arith, len)),
      le→leb 20 (length packet) (omega (arith, len)),
      at0,
      at4,
      at8,
      at12,
      at16,
      rest,
      (eq_ℤ_iff t t).1 refl,
      e,
    )

-- A response that starts with four bytes each for action 1, the transaction's ID, the interval, the
-- leechers and the seeders, and goes on with the packed peers of the address family, is read as these
-- numbers and these peers in their order: over IPv4 four bytes of address and two of port each, over IPv6
-- sixteen and two, each address in its text, if the addresses and ports fit their bytes.
pub parse_announce_response_lem :
    (action tid interval leechers seeders : Bytes) (transaction_id i l s : ℤ) (swarm : Swarm)
    → Spells 4 action (pos 1)
    → Spells 4 tid transaction_id
    → Spells 4 interval i
    → Spells 4 leechers l
    → Spells 4 seeders s
    → IsSwarm swarm
    → parse_announce_response transaction_id
        (before (action ∷ tid ∷ interval ∷ leechers ∷ seeders ∷ []) (packed_swarm swarm))
        (has_ipv6 swarm)
      ≡ ok (record { interval = i; leechers = l; seeders = s; peers = named_swarm swarm })
parse_announce_response_lem a tid n l s t i' l' s' swarm ha ht hi hl hs all =
    parse_announce_response-before a tid n l s (packed_swarm swarm) t i' l' s' (has_ipv6 swarm)
      (named_swarm swarm) ha ht hi hl hs (unpack_by-packed_swarm swarm all)

-- A response that is too short or does not fit the request, and a tracker's failure.
pub data IsRefused (resp : Bytes) : Error → Type 0 where
  bad_size : IsRefused resp struct_error
  bad_content : IsRefused resp value_error
  failure : int_at 0 4 resp ≡ pos 3 → 8 ≤ length resp → IsRefused resp tracker_failure

guard_failure :
    {resp : Bytes} (b : Bool)
    → (b ≡ true → IsRefused resp tracker_failure)
    → Yields (λ _. b ≡ false) (IsRefused resp) (guard (not b) tracker_failure)
guard_failure true k = raises (k refl)
guard_failure false k = returns refl

raise_error_response-Yields :
    (resp : Bytes)
    → Yields (λ _. int_at 0 4 resp ≢ pos 3) (IsRefused resp) (raise_error_response resp)
unfolding raise_error_response
raise_error_response-Yields resp = Yields-guard (leb 8 (length resp)) struct_error bad_size λ long.
    Yields-map
      (guard_failure (eq_ℤ (int_at 0 4 resp) (pos 3))
        λ e. failure ((eq_ℤ_iff _ _).0 e) (leb→le 8 (length resp) long))
      λ _ other same. cc (other, (eq_ℤ_iff _ _).1 same)

-- Whatever a tracker sends, a connection ID is taken only from a response to this transaction.
pub parse_connection_response-Yields :
    (transaction_id : ℤ) (resp : Bytes)
    → Yields
        (λ id.
          (int_at 0 4 resp ≡ pos 0)
          × (int_at 4 4 resp ≡ transaction_id)
          × (16 ≤ length resp)
          × (id ≡ int_at 8 8 resp))
        (IsRefused resp)
        (parse_connection_response transaction_id resp)
unfolding parse_connection_response
parse_connection_response-Yields t resp = Yields->>= (raise_error_response-Yields resp) λ _ _.
    Yields-guard (leb 16 (length resp)) struct_error bad_size λ long.
      Yields-guard (eq_ℤ (int_at 4 4 resp) t) value_error bad_content λ same.
        Yields-guard (eq_ℤ (int_at 0 4 resp) (pos 0)) value_error bad_content λ action.
          returns
            ((eq_ℤ_iff _ _).0 action, (eq_ℤ_iff _ _).0 same, leb→le 16 (length resp) long, refl)

-- Whatever a tracker sends, parse_announce_response gives a response only if the packet has action 1,
-- the transaction's ID, and 20 bytes and then 6 (or 18, for IPv6) for each peer that it gives; else it
-- raises a ValueError or struct.error, or, if the action is 3, a TrackerFailure.
pub parse_announce_response-Yields :
    (transaction_id : ℤ) (resp : Bytes) (is_ipv6 : Bool)
    → Yields
        (λ r.
          (int_at 0 4 resp ≡ pos 1)
          × (int_at 4 4 resp ≡ transaction_id)
          × (length resp ≡ 20 + (if is_ipv6 then 18 else 6) * length r.peers))
        (IsRefused resp)
        (parse_announce_response transaction_id resp is_ipv6)
unfolding parse_announce_response
parse_announce_response-Yields t resp is_ipv6 = Yields->>= (raise_error_response-Yields resp) λ _ _.
    Yields-guard (leb 20 (length resp)) struct_error bad_size λ long.
      Yields-guard (eq_ℤ (int_at 4 4 resp) t) value_error bad_content λ same.
        Yields-guard (eq_ℤ (int_at 0 4 resp) (pos 1)) value_error bad_content λ action.
          Yields->>=
            (Yields-widen (IsRefused resp) (λ e h. subst (IsRefused resp) (sym h) bad_content)
              (unpack_by-Yields is_ipv6 (drop 20 resp)))
            λ peers count. returns (
              (eq_ℤ_iff _ _).0 action,
              (eq_ℤ_iff _ _).0 same,
              omega (arith, count, length-drop 20 resp, leb→le 20 (length resp) long),
            )

-- A packet of eight bytes or more whose action is 3 makes both parsers raise a TrackerFailure, whatever
-- its transaction's ID.
pub raise_error_response_lem :
    (transaction_id : ℤ) (resp : Bytes) (is_ipv6 : Bool)
    → 8 ≤ length resp
    → int_at 0 4 resp ≡ pos 3
    → (parse_connection_response transaction_id resp ≡ err tracker_failure)
      × (parse_announce_response transaction_id resp is_ipv6 ≡ err tracker_failure)
unfolding raise_error_response parse_connection_response parse_announce_response
raise_error_response_lem t resp is_ipv6 long action =
    let enough : leb 8 (length resp) ≡ true = le→leb 8 (length resp) long in
    (rw (enough, action) refl, rw (enough, action) refl)

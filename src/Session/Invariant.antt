-- ===== src/Session/Invariant.antt =====
-- The limiter and the addresses in `peers_seen` of a session of src/demagnetize/session.py.
use demagnetize.Prelude.{
  ℕ, ◌+◌, ◌<◌, ◌≤◌, ◌≡◌, refl, ap, ◌∙◌, true, false, List, [], ◌∷◌, ◌++◌, length, arith, if-both,
  if◌then◌else◌,
}
use demagnetize.Prelude.Int.{eq_ℤ_iff}
use demagnetize.Prelude.Order.{eq_bytes_iff}
use demagnetize.Errors.{Result, ok, err}
use demagnetize.Peer.Address.{Peer, PeerAddress, address, eq_address}
use demagnetize.Session.{
  TorrentSession, Phase, going, is_seen, is_peer_error, take_peer, contacts, enter_task, end_task,
  end_tracker, opened, Step, sends, finishes, starts, gets, receives, ends, Reaches, here, next,
  peers_per_magnet_limit,
}
use demagnetize.Prelude.Positions.{length-insert, length-add}

-- How many of the peers have an address.
abbrev pub count : PeerAddress → List Peer → ℕ
count a [] = 0
count a (p ∷ ps) = (if eq_address a (address p) then 1 else 0) + count a ps

abbrev pub occurs : PeerAddress → List PeerAddress → ℕ
occurs a seen = if is_seen a seen then 1 else 0

count-insert :
    (a : PeerAddress) (xs : List Peer) (p : Peer) (ys : List Peer)
    → count a (xs ++ p ∷ ys) ≡ (if eq_address a (address p) then 1 else 0) + count a (xs ++ ys)
count-insert a [] p ys = refl
count-insert a (x ∷ xs) p ys = omega (arith, count-insert a xs p ys)

eq_address→eq : (a b : PeerAddress) → eq_address a b ≡ true → a ≡ b
eq_address→eq (h, p) (k, q) e =
    let host : h ≡ k = ground (arith, eq_bytes_iff h k) in
    let port : p ≡ q = ground (arith, eq_ℤ_iff p q) in cc

pub eq_address_self : (a : PeerAddress) → eq_address a a ≡ true
eq_address_self (h, p) = cc ((eq_bytes_iff h h).1 refl, (eq_ℤ_iff p p).1 refl)

-- A new address is one that occurs nowhere.
occurs-new :
    (a b : PeerAddress) (seen : List PeerAddress)
    → is_seen b seen ≡ false
    → occurs a (b ∷ seen) ≡ (if eq_address a b then 1 else 0) + occurs a seen
occurs-new a b seen new =
    let absent : eq_address a b ≡ true → is_seen a seen ≡ false =
      λ same. cc (eq_address→eq a b same, new) in
    ground (arith, absent)

-- The invariant of a session that has contacted the peers `tried`.
pub record Keeps {Info : Type 0} (tried : List Peer) (s : TorrentSession Info) : Type 0 where
  pub limited : length s.running + length s.offering ≤ peers_per_magnet_limit
  pub once : (a : PeerAddress) → count a tried + count a s.waiting ≤ occurs a s.peers_seen
  pub all :
      s.info_fetched ≡ false
      → (a : PeerAddress) → count a tried + count a s.waiting ≡ occurs a s.peers_seen
  pub fetched : s.info_fetched ≡ true → 1 ≤ length s.offering

module _ {Info : Type 0} where
  abbrev pub KeepsIn : List Peer → Phase Info → Type 0
  KeepsIn tried (going s) = Keeps tried s
  KeepsIn tried _ = Unit

  take_peer-Keeps :
      {tried : List Peer} (p : Peer) (s : TorrentSession Info)
      → Keeps tried s
      → Keeps tried (take_peer p s)
  take_peer-Keeps {tried} p s k =
      if-both (Keeps tried) (is_seen (address p) s.peers_seen) (λ _. k)
        λ new. record {
          limited = k.limited;
          once = λ a. omega (arith, k.once a, occurs-new a (address p) s.peers_seen new);
          all = λ none a. omega (arith, k.all none a, occurs-new a (address p) s.peers_seen new);
          fetched = k.fetched;
        }

  enter_task-Keeps :
      {tried : List Peer} (xs : List Peer) (p : Peer) (ys : List Peer) (s : TorrentSession Info)
      → s.waiting ≡ xs ++ p ∷ ys
      → length s.running + length s.offering < peers_per_magnet_limit
      → Keeps tried s
      → Keeps (contacts p s ++ tried) (enter_task p (record s { waiting = xs ++ ys }))
  enter_task-Keeps {tried} xs p ys s e free k =
      let waits : (a : PeerAddress)
          → count a s.waiting ≡ (if eq_address a (address p) then 1 else 0) + count a (xs ++ ys) =
        λ a. ap (count a) e ∙ count-insert a xs p ys in
      if-both
        (λ more.
          Keeps (more ++ tried) (record s { waiting = xs ++ ys; running = more ++ s.running }))
        s.info_fetched
        (λ done. record {
          limited = k.limited;
          once = λ a. omega (arith, k.once a, waits a);
          all = λ none a. cc (done, none);
          fetched = k.fetched;
        })
        λ _. record {
          limited = omega (arith, free);
          once = λ a. omega (arith, k.once a, waits a);
          all = λ none a. omega (arith, k.all none a, waits a);
          fetched = k.fetched;
        }

  end_tracker-Keeps :
      {tried : List Peer} (r : Result (Unit {0})) (s : TorrentSession Info)
      → Keeps tried s
      → KeepsIn tried (end_tracker r s)
  end_tracker-Keeps (ok _) s k = k
  end_tracker-Keeps (err e) s k = tt

  end_task-Keeps :
      {tried : List Peer} (r : Result Info) (s : TorrentSession Info)
      → length s.running + length s.offering < peers_per_magnet_limit
      → Keeps tried s
      → KeepsIn tried (end_task r s)
  end_task-Keeps (ok info) s room k = record {
    limited = omega (arith, room, length-add s.offering info);
    once = k.once;
    all = λ none a. cc none;
    fetched = λ _. omega (arith, length-add s.offering info);
  }
  end_task-Keeps {tried} (err e) s room k =
      if-both (KeepsIn tried) (is_peer_error e) (λ _. k) λ _. tt

module _ {Info : Type 0} (get_info : Peer → Result Info) where
  Step-Keeps :
      (s : TorrentSession Info) {tried more : List Peer} {phase : Phase Info}
      → Keeps tried s
      → Step get_info s more phase
      → KeepsIn (more ++ tried) phase
  Step-Keeps s k (sends xs ys r p ps e) =
      take_peer-Keeps p (record s { trackers = xs ++ (r, ps) ∷ ys })
        (record { limited = k.limited; once = k.once; all = k.all; fetched = k.fetched })
  Step-Keeps s k (finishes xs ys r e) =
      end_tracker-Keeps r (record s { trackers = xs ++ ys })
        (record { limited = k.limited; once = k.once; all = k.all; fetched = k.fetched })
  Step-Keeps s k (starts xs ys p e free) = enter_task-Keeps xs p ys s e free k
  Step-Keeps s k (gets xs ys p e) =
      let shorter : length s.running ≡ 1 + length (xs ++ ys) =
        ap length e ∙ length-insert xs p ys in
      end_task-Keeps (get_info p) (record s { running = xs ++ ys })
        (omega (arith, k.limited, shorter))
        (record {
          limited = omega (arith, k.limited, shorter);
          once = k.once;
          all = k.all;
          fetched = k.fetched;
        })
  Step-Keeps s k (receives info rest e) = tt
  Step-Keeps s k (ends t w r o) = tt

  pub Reaches-Keeps :
      (trackers : List (Result (Unit {0}) × List Peer)) {tried : List Peer} {phase : Phase Info}
      → Reaches get_info (opened trackers) tried phase
      → KeepsIn tried phase
  Reaches-Keeps trackers here = record {
    limited = omega arith;
    once = λ a. omega arith;
    all = λ _ a. refl;
    fetched = λ h. cc h;
  }
  Reaches-Keeps trackers (next {s = s} before step) =
      Step-Keeps s (Reaches-Keeps trackers before) step

  -- However the tasks are interleaved and whatever the peers come to: a session never has more than
  -- PEERS_PER_MAGNET_LIMIT tasks past the limiter, and it never contacts two peers of one address.
  pub Reaches-limited :
      (trackers : List (Result (Unit {0}) × List Peer)) (tried : List Peer)
      (s : TorrentSession Info)
      → Reaches get_info (opened trackers) tried (going s)
      → (length s.running + length s.offering ≤ peers_per_magnet_limit)
        × ((a : PeerAddress) → count a tried ≤ 1)
  Reaches-limited trackers tried s run =
      let k : Keeps tried s = Reaches-Keeps trackers run in
      (k.limited, λ a. ground (arith, k.once a))

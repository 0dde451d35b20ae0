-- ===== src/Session/Progress.antt =====
-- The steps that a session of src/demagnetize/session.py has left.
use demagnetize.Prelude.{
  ℕ, ◌+◌, ◌*◌, ◌<◌, ◌≡◌, refl, ap, List, [], ◌∷◌, ◌++◌, length, arith, if-both,
}
use demagnetize.Prelude.Positions.{length-insert, length-add}
use demagnetize.Errors.{Result, ok, err}
use demagnetize.Peer.Address.{Peer, address}
use demagnetize.Session.{
  TorrentSession, Phase, going, is_seen, is_peer_error, take_peer, enter_task, end_task,
  end_tracker, Step, sends, finishes, starts, gets, receives, ends,
}

abbrev weight_trackers : List (Result (Unit {0}) × List Peer) → ℕ
weight_trackers [] = 0
weight_trackers ((r, ps) ∷ ts) = 1 + 4 * length ps + weight_trackers ts

-- How much there is to do: a peer is taken from its tracker, contacted, and offered or given up.
abbrev pub weight : {Info : Type 0} → TorrentSession Info → ℕ
weight s =
    weight_trackers s.trackers + 3 * length s.waiting + 2 * length s.running + length s.offering

weight_trackers-append :
    (xs ys : List (Result (Unit {0}) × List Peer))
    → weight_trackers (xs ++ ys) ≡ weight_trackers xs + weight_trackers ys
weight_trackers-append [] ys = omega arith
weight_trackers-append ((r, ps) ∷ xs) ys = omega (arith, weight_trackers-append xs ys)

module _ {Info : Type 0} (get_info : Peer → Result Info) where
  abbrev Lighter : ℕ → Phase Info → Type 0
  Lighter n (going s) = weight s < n
  Lighter n _ = Unit

  take_peer-Lighter :
      (n : ℕ) (p : Peer) (s : TorrentSession Info)
      → weight s + 3 < n
      → Lighter n (going (take_peer p s))
  take_peer-Lighter n p s h =
      if-both (λ s'. weight s' < n) (is_seen (address p) s.peers_seen) (λ _. omega arith)
        λ _. omega arith

  enter_task-Lighter :
      (n : ℕ) (p : Peer) (s : TorrentSession Info) → weight s + 2 < n → weight (enter_task p s) < n
  enter_task-Lighter n p s h =
      if-both (λ ps. weight (record s { running = ps ++ s.running }) < n) s.info_fetched
        (λ _. omega arith) λ _. omega arith

  end_tracker-Lighter :
      (n : ℕ) (r : Result (Unit {0})) (s : TorrentSession Info)
      → weight s < n
      → Lighter n (end_tracker r s)
  end_tracker-Lighter n (ok _) s h = h
  end_tracker-Lighter n (err e) s h = tt

  end_task-Lighter :
      (n : ℕ) (r : Result Info) (s : TorrentSession Info)
      → weight s + 1 < n
      → Lighter n (end_task r s)
  end_task-Lighter n (ok info) s h = omega (arith, length-add s.offering info)
  end_task-Lighter n (err e) s h = if-both (Lighter n) (is_peer_error e) (λ _. omega arith) λ _. tt

  -- Each step of a session leaves less to do.
  Step-Lighter :
      (s : TorrentSession Info) {more : List Peer} {phase : Phase Info}
      → Step get_info s more phase
      → Lighter (weight s) phase
  Step-Lighter s (sends xs ys r p ps e) =
      take_peer-Lighter (weight s) p (record s { trackers = xs ++ (r, ps) ∷ ys })
        (omega (
          arith,
          ap weight_trackers e,
          weight_trackers-append xs ((r, ps) ∷ ys),
          weight_trackers-append xs ((r, p ∷ ps) ∷ ys),
        ))
  Step-Lighter s (finishes xs ys r e) =
      end_tracker-Lighter (weight s) r (record s { trackers = xs ++ ys })
        (omega (
          arith,
          ap weight_trackers e,
          weight_trackers-append xs ys,
          weight_trackers-append xs ((r, []) ∷ ys),
        ))
  Step-Lighter s (starts xs ys p e free) =
      enter_task-Lighter (weight s) p (record s { waiting = xs ++ ys })
        (omega (arith, ap length e, length-insert xs p ys))
  Step-Lighter s (gets xs ys p e) =
      end_task-Lighter (weight s) (get_info p) (record s { running = xs ++ ys })
        (omega (arith, ap length e, length-insert xs p ys))
  Step-Lighter s (receives info rest e) = tt
  Step-Lighter s (ends t w r o) = tt

  -- A session that goes on has a step to take.
  stepping :
      (s : TorrentSession Info) (trackers : List (Result (Unit {0}) × List Peer))
      (waiting running : List Peer) (offering : List Info)
      → s.trackers ≡ trackers
      → s.waiting ≡ waiting
      → s.running ≡ running
      → s.offering ≡ offering
      → (more : List Peer) × (phase : Phase Info) × Step get_info s more phase
  stepping s ((r, []) ∷ ts) w u o et ew er eo = (_, _, finishes [] ts r et)
  stepping s ((r, p ∷ ps) ∷ ts) w u o et ew er eo = (_, _, sends [] ts r p ps et)
  stepping s [] w (p ∷ ps) o et ew er eo = (_, _, gets [] ps p er)
  stepping s [] w [] (i ∷ is) et ew er eo = (_, _, receives i is eo)
  stepping s [] (p ∷ ps) [] [] et ew er eo =
      (_, _, starts [] ps p ew (omega (arith, ap length er, ap length eo)))
  stepping s [] [] [] [] et ew er eo = (_, _, ends et ew er eo)

  -- A session that goes on can take a step, and each step that it can take leaves less to do, so that
  -- every run comes to an outcome, whatever the order of the tasks.
  pub Step-weight :
      (s : TorrentSession Info)
      → ((more : List Peer) × (phase : Phase Info) × Step get_info s more phase)
        × ((more : List Peer) (s' : TorrentSession Info)
            → Step get_info s more (going s')
            → weight s' < weight s)
  Step-weight s = (
    stepping s s.trackers s.waiting s.running s.offering refl refl refl refl,
    λ more s' step. Step-Lighter s step,
  )

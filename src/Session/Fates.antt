-- ===== src/Session/Fates.antt =====
-- The outcomes of a session of src/demagnetize/session.py.
use demagnetize.Prelude.{
  ◌≡◌, refl, sym, ap, subst, ◌⊎◌, inl, inr, true, false, List, [], ◌∷◌, ◌++◌, length, arith,
  if-both, Bool-cases,
}
use demagnetize.Prelude.Positions.{Among, Among-insert, Among-within, Among-at, Among-add}
use demagnetize.Errors.{Error, Result, ok, err}
use demagnetize.Peer.Address.{Peer, PeerAddress, address}
use demagnetize.Session.{
  TorrentSession, Phase, going, received_info, no_info, crashed, is_seen, is_peer_error, take_peer,
  contacts, enter_task, end_task, end_tracker, opened, Step, sends, finishes, starts, gets,
  receives, ends, Reaches, here, next,
}
use demagnetize.Session.Invariant.{count, occurs, Keeps, Reaches-Keeps, eq_address_self}

abbrev Tasks : Type 0
Tasks = List (Result (Unit {0}) × List Peer)

-- A peer that a tracker has yet to send, and how a tracker's task will end.
abbrev pub Sends : Peer → List (Result (Unit {0}) × List Peer) → Type 0
Sends p [] = ⊥
Sends p ((r, ps) ∷ ts) = Among p ps ⊎ Sends p ts

abbrev pub EndsAs : Result (Unit {0}) → List (Result (Unit {0}) × List Peer) → Type 0
EndsAs r [] = ⊥
EndsAs r ((q, ps) ∷ ts) = (r ≡ q) ⊎ EndsAs r ts

Sends-sent :
    (p : Peer) (xs ys : Tasks) (r : Result (Unit {0})) (q : Peer) (ps : List Peer)
    → Sends p (xs ++ (r, q ∷ ps) ∷ ys)
    → (p ≡ q) ⊎ Sends p (xs ++ (r, ps) ∷ ys)
Sends-sent p [] ys r q ps (inl (inl e)) = inl e
Sends-sent p [] ys r q ps (inl (inr m)) = inr (inl m)
Sends-sent p [] ys r q ps (inr m) = inr (inr m)
Sends-sent p (x ∷ xs) ys r q ps (inl m) = inr (inl m)
Sends-sent p (x ∷ xs) ys r q ps (inr m) = elim (Sends-sent p xs ys r q ps m) [
  | inl e ↦ inl e
  | inr k ↦ inr (inr k)
]

Sends-ended :
    (p : Peer) (xs ys : Tasks) (r : Result (Unit {0}))
    → Sends p (xs ++ (r, []) ∷ ys)
    → Sends p (xs ++ ys)
Sends-ended p [] ys r (inl m) = absurd m
Sends-ended p [] ys r (inr m) = m
Sends-ended p (x ∷ xs) ys r (inl m) = inl m
Sends-ended p (x ∷ xs) ys r (inr m) = inr (Sends-ended p xs ys r m)

EndsAs-sent :
    (q' : Result (Unit {0})) (xs ys : Tasks) (r : Result (Unit {0})) (ps ps' : List Peer)
    → EndsAs q' (xs ++ (r, ps) ∷ ys)
    → EndsAs q' (xs ++ (r, ps') ∷ ys)
EndsAs-sent q' [] ys r ps ps' m = m
EndsAs-sent q' (x ∷ xs) ys r ps ps' (inl e) = inl e
EndsAs-sent q' (x ∷ xs) ys r ps ps' (inr m) = inr (EndsAs-sent q' xs ys r ps ps' m)

EndsAs-ended :
    (q' : Result (Unit {0})) (xs ys : Tasks) (r : Result (Unit {0})) (ps : List Peer)
    → EndsAs q' (xs ++ ys)
    → EndsAs q' (xs ++ (r, ps) ∷ ys)
EndsAs-ended q' [] ys r ps m = inr m
EndsAs-ended q' (x ∷ xs) ys r ps (inl e) = inl e
EndsAs-ended q' (x ∷ xs) ys r ps (inr m) = inr (EndsAs-ended q' xs ys r ps m)

EndsAs-at : (xs ys : Tasks) (r : Result (Unit {0})) (ps : List Peer) → EndsAs r (xs ++ (r, ps) ∷ ys)
EndsAs-at [] ys r ps = inl refl
EndsAs-at (x ∷ xs) ys r ps = inr (EndsAs-at xs ys r ps)

is_seen-cons :
    (a b : PeerAddress) (seen : List PeerAddress)
    → is_seen a seen ≡ true
    → is_seen a (b ∷ seen) ≡ true
is_seen-cons a b seen h = ground (arith, h)

-- A session that offers nothing has fetched nothing, so that all that were seen were contacted.
unfetched :
    {Info : Type 0} {tried : List Peer} {s : TorrentSession Info}
    → Keeps tried s
    → s.offering ≡ []
    → s.info_fetched ≡ false
unfetched {s = s} k o = elim (Bool-cases s.info_fetched) [
  | inl done ↦ absurd (omega (arith, k.fetched done, ap length o))
  | inr fresh ↦ fresh
]

all_seen :
    {Info : Type 0} {tried : List Peer} {s : TorrentSession Info}
    → Keeps tried s
    → s.waiting ≡ []
    → s.info_fetched ≡ false
    → (a : PeerAddress) → is_seen a s.peers_seen ≡ true
    → count a tried ≡ 1
all_seen {s = s} k w fresh a seen =
    let full : occurs a s.peers_seen ≡ 1 = rw seen refl in
    omega (arith, k.all fresh a, ap (count a) w, full)

module _ {Info : Type 0} (get_info : Peer → Result Info)
    (trackers : List (Result (Unit {0}) × List Peer)) where
  -- A peer that raised a PeerError.
  abbrev pub Failed : Peer → Type 0
  Failed p = (e : Error) × (get_info p ≡ err e) × (is_peer_error e ≡ true)

  -- What is known of the peers of a session that goes on.
  record Fares (tried : List Peer) (s : TorrentSession Info) : Type 0 where
    runs : (p : Peer) → Among p s.running → Among p tried
    sources :
        (info : Info) → Among info s.offering → (p : Peer) × Among p tried × (get_info p ≡ ok info)
    failures : s.info_fetched ≡ false → (p : Peer) → Among p tried → Among p s.running ⊎ Failed p
    sent :
        (p : Peer)
        → Sends p trackers
        → Sends p s.trackers ⊎ (is_seen (address p) s.peers_seen ≡ true)
    endings : (r : Result (Unit {0})) → EndsAs r s.trackers → EndsAs r trackers

  -- What an outcome says: an info is one that a peer's get_info returned; there is none only if each
  -- peer that a tracker sent had its address contacted, and all that were contacted raised a PeerError;
  -- and an exception is that of a tracker's task, or one of a peer's that is no PeerError.
  abbrev pub Fate : List Peer → Phase Info → Type 0
  Fate tried (going s) = Unit
  Fate tried (received_info info) = (p : Peer) × Among p tried × (get_info p ≡ ok info)
  Fate tried no_info =
      ((p : Peer) → Sends p trackers → count (address p) tried ≡ 1)
      × ((p : Peer) → Among p tried → Failed p)
  Fate tried (crashed e) =
      EndsAs (err e) trackers
      ⊎ ((p : Peer) × Among p tried × (get_info p ≡ err e) × (is_peer_error e ≡ false))

  abbrev FaresIn : List Peer → Phase Info → Type 0
  FaresIn tried (going s) = Fares tried s
  FaresIn tried phase = Fate tried phase

  take_peer-Fares :
      {tried : List Peer} (xs ys : Tasks) (r : Result (Unit {0})) (p : Peer) (ps : List Peer)
      (s : TorrentSession Info)
      → s.trackers ≡ xs ++ (r, p ∷ ps) ∷ ys
      → Fares tried s
      → Fares tried (take_peer p (record s { trackers = xs ++ (r, ps) ∷ ys }))
  take_peer-Fares {tried} xs ys r p ps s e f =
      let left : (q : Peer)
          → Sends q trackers
          → (q ≡ p) ⊎ (Sends q (xs ++ (r, ps) ∷ ys) ⊎ (is_seen (address q) s.peers_seen ≡ true)) =
        λ q m. elim (f.sent q m) [
          | inl k ↦ elim (Sends-sent q xs ys r p ps (subst (Sends q) e k)) [
            | inl same ↦ inl same
            | inr more ↦ inr (inl more)
          ]
          | inr seen ↦ inr (inr seen)
        ] in
      let endings : (q : Result (Unit {0})) → EndsAs q (xs ++ (r, ps) ∷ ys) → EndsAs q trackers =
        λ q m. f.endings q (subst (EndsAs q) (sym e) (EndsAs-sent q xs ys r ps (p ∷ ps) m)) in
      if-both (Fares tried) (is_seen (address p) s.peers_seen)
        (λ old. record {
          runs = f.runs;
          sources = f.sources;
          failures = f.failures;
          sent = λ q m. elim (left q m) [ inl same ↦ inr (cc (same, old)) | inr k ↦ k ];
          endings = endings;
        })
        λ new. record {
          runs = f.runs;
          sources = f.sources;
          failures = f.failures;
          sent = λ q m. elim (left q m) [
            | inl same ↦ inr (cc (same, eq_address_self (address p)))
            | inr (inl k) ↦ inl k
            | inr (inr seen) ↦ inr (is_seen-cons (address q) (address p) s.peers_seen seen)
          ];
          endings = endings;
        }

  end_tracker-Fares :
      {tried : List Peer} (xs ys : Tasks) (r : Result (Unit {0})) (s : TorrentSession Info)
      → s.trackers ≡ xs ++ (r, []) ∷ ys
      → Fares tried s
      → FaresIn tried (end_tracker r (record s { trackers = xs ++ ys }))
  end_tracker-Fares xs ys (ok tt) s e f = record {
    runs = f.runs;
    sources = f.sources;
    failures = f.failures;
    sent = λ p m. elim (f.sent p m) [
      | inl k ↦ inl (Sends-ended p xs ys (ok tt) (subst (Sends p) e k))
      | inr seen ↦ inr seen
    ];
    endings = λ q m. f.endings q (subst (EndsAs q) (sym e) (EndsAs-ended q xs ys (ok tt) [] m));
  }
  end_tracker-Fares xs ys (err x) s e f =
      inl (f.endings (err x) (subst (EndsAs (err x)) (sym e) (EndsAs-at xs ys (err x) [])))

  enter_task-Fares :
      {tried : List Peer} (xs : List Peer) (p : Peer) (ys : List Peer) (s : TorrentSession Info)
      → Fares tried s
      → Fares (contacts p s ++ tried) (enter_task p (record s { waiting = xs ++ ys }))
  enter_task-Fares {tried} xs p ys s f =
      if-both
        (λ more.
          Fares (more ++ tried) (record s { waiting = xs ++ ys; running = more ++ s.running }))
        s.info_fetched
        (λ _. record {
          runs = f.runs;
          sources = f.sources;
          failures = f.failures;
          sent = f.sent;
          endings = f.endings;
        })
        λ none. record {
          runs = λ q m. elim m [ inl e ↦ inl e | inr k ↦ inr (f.runs q k) ];
          sources = λ info m. let (q, k, e) = f.sources info m in (q, inr k, e);
          failures = λ fresh q m. elim m [
            | inl e ↦ inl (inl e)
            | inr k ↦ elim (f.failures none q k) [ inl r ↦ inl (inr r) | inr x ↦ inr x ]
          ];
          sent = f.sent;
          endings = f.endings;
        }

  end_task-Fares :
      {tried : List Peer} (xs : List Peer) (p : Peer) (ys : List Peer) (s : TorrentSession Info)
      (got : Result Info)
      → s.running ≡ xs ++ p ∷ ys
      → get_info p ≡ got
      → Fares tried s
      → FaresIn tried (end_task got (record s { running = xs ++ ys }))
  end_task-Fares {tried} xs p ys s (ok info) e h f = record {
    runs = λ q m. f.runs q (subst (Among q) (sym e) (Among-within q xs p ys m));
    sources = λ i m. elim (Among-add i s.offering info m) [
      | inl same ↦ (p, f.runs p (subst (Among p) (sym e) (Among-at xs p ys)), cc (same, h))
      | inr k ↦ f.sources i k
    ];
    failures = λ none q m. cc none;
    sent = f.sent;
    endings = f.endings;
  }
  end_task-Fares {tried} xs p ys s (err x) e h f =
      if-both (FaresIn tried) (is_peer_error x)
        (λ caught. record {
          runs = λ q m. f.runs q (subst (Among q) (sym e) (Among-within q xs p ys m));
          sources = f.sources;
          failures = λ none q m. elim (f.failures none q m) [
            | inl k ↦ elim (Among-insert q xs p ys (subst (Among q) e k)) [
              | inl same ↦ inr (x, cc (same, h), caught)
              | inr others ↦ inl others
            ]
            | inr gone ↦ inr gone
          ];
          sent = f.sent;
          endings = f.endings;
        })
        λ other. inr (p, f.runs p (subst (Among p) (sym e) (Among-at xs p ys)), h, other)

  Step-Fares :
      (s : TorrentSession Info) {tried more : List Peer} {phase : Phase Info}
      → Keeps tried s
      → Fares tried s
      → Step get_info s more phase
      → FaresIn (more ++ tried) phase
  Step-Fares s k f (sends xs ys r p ps e) = take_peer-Fares xs ys r p ps s e f
  Step-Fares s k f (finishes xs ys r e) = end_tracker-Fares xs ys r s e f
  Step-Fares s k f (starts xs ys p e free) = enter_task-Fares xs p ys s f
  Step-Fares s k f (gets xs ys p e) = end_task-Fares xs p ys s (get_info p) e refl f
  Step-Fares s k f (receives info rest e) = f.sources info (subst (Among info) (sym e) (inl refl))
  Step-Fares s {tried} k f (ends t w r o) =
      let fresh : s.info_fetched ≡ false = unfetched k o in
      (
        λ p m. elim (f.sent p m) [
          | inl left ↦ absurd (subst (Sends p) t left)
          | inr seen ↦ all_seen k w fresh (address p) seen
        ],
        λ p m. elim (f.failures fresh p m) [
          | inl running ↦ absurd (subst (Among p) r running)
          | inr failed ↦ failed
        ],
      )

  Reaches-Fares :
      {tried : List Peer} {phase : Phase Info}
      → Reaches get_info (opened trackers) tried phase
      → FaresIn tried phase
  Reaches-Fares here = record {
    runs = λ p m. m;
    sources = λ info m. absurd m;
    failures = λ _ p m. inl m;
    sent = λ p m. inl m;
    endings = λ r m. m;
  }
  Reaches-Fares (next {s = s} before step) =
      Step-Fares s (Reaches-Keeps get_info trackers before) (Reaches-Fares before) step

  FaresIn-Fate : (tried : List Peer) (phase : Phase Info) → FaresIn tried phase → Fate tried phase
  FaresIn-Fate tried (going s) f = tt
  FaresIn-Fate tried (received_info info) f = f
  FaresIn-Fate tried no_info f = f
  FaresIn-Fate tried (crashed e) f = f

  -- However the tasks are interleaved: a session that has started its trackers' tasks gives an info only
  -- if the get_info of a peer that it contacted returned it; it gives up only if it contacted each address
  -- that a tracker sent just once, and each peer that it contacted raised a PeerError; and an exception
  -- ends it only if a tracker's task raised it, or a peer that it contacted, and it is no PeerError.
  pub Reaches-Fate :
      (tried : List Peer) (phase : Phase Info)
      → Reaches get_info (opened trackers) tried phase
      → Fate tried phase
  Reaches-Fate tried phase run = FaresIn-Fate tried phase (Reaches-Fares run)

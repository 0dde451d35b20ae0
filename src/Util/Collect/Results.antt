-- ===== src/Util/Collect/Results.antt =====
-- The values that the loop over `acollect` of src/demagnetize/util.py gets.
use demagnetize.Prelude.{
  ℕ, ◌≡◌, refl, sym, ap, subst, ◌∙◌, Option, List, [], ◌∷◌, ◌++◌, map, inl, inr, append-nil,
  append_assoc,
}
use demagnetize.Prelude.Positions.{Among, Among-at}
use demagnetize.Errors.{Error, Result, ok, err}
use demagnetize.Util.Collect.{
  Collection, Stage, collecting, finished_with, broken, end_coroutine, begun, Move, enters,
  completes, takes, stops, Runs, begins, then,
}
use mathlib.Core.List.{Permᴰ}
use mathlib.Core.List.Permᴰ

map-append {ℓ κ} :
    {A : Type ℓ} {B : Type κ} (f : A → B) (xs ys : List A) → map f (xs ++ ys) ≡ map f xs ++ map f ys
map-append f [] ys = refl
map-append f (x ∷ xs) ys = ap (λ zs. f x ∷ zs) (map-append f xs ys)

module _ {A : Type 0} where
  Among-perm : (a : A) {xs ys : List A} → Permᴰ xs ys → Among a xs → Among a ys
  Among-perm a Permᴰ.nil m = m
  Among-perm a (Permᴰ.cons e d) (inl h) = inl (h ∙ e)
  Among-perm a (Permᴰ.cons e d) (inr m) = inr (Among-perm a d m)
  Among-perm a (Permᴰ.swap e f) (inl h) = inr (inl (h ∙ e))
  Among-perm a (Permᴰ.swap e f) (inr (inl h)) = inl (h ∙ f)
  Among-perm a (Permᴰ.swap e f) (inr (inr m)) = inr (inr m)
  Among-perm a (Permᴰ.trans d₁ d₂) m = Among-perm a d₂ (Among-perm a d₁ m)

  Among-right : (a : A) (xs ys : List A) → Among a ys → Among a (xs ++ ys)
  Among-right a [] ys m = m
  Among-right a (x ∷ xs) ys m = inr (Among-right a xs ys m)

  Among-left : (a : A) (xs ys : List A) → Among a xs → Among a (xs ++ ys)
  Among-left a [] ys m = absurd m
  Among-left a (x ∷ xs) ys (inl e) = inl e
  Among-left a (x ∷ xs) ys (inr m) = inr (Among-left a xs ys m)

module _ {A B : Type 0} (f : A → B) where
  Among-map : (a : A) (xs : List A) → Among a xs → Among (f a) (map f xs)
  Among-map a [] m = absurd m
  Among-map a (x ∷ xs) (inl e) = inl (ap f e)
  Among-map a (x ∷ xs) (inr m) = inr (Among-map a xs m)

  map-Among : (b : B) (xs : List A) → Among b (map f xs) → (a : A) × Among a xs × (f a ≡ b)
  map-Among b [] m = absurd m
  map-Among b (x ∷ xs) (inl e) = (x, inl refl, sym e)
  map-Among b (x ∷ xs) (inr m) = let (a, k, e) = map-Among b xs m in (a, inr k, e)

module _ {C T : Type 0} (limit : Option ℕ) (run : C → Result T) where
  -- The outcomes of all tasks: those that are known, and those that are to come.
  abbrev outcomes : Collection C T → List (Result T)
  outcomes s = map ok (s.collected ++ s.offered) ++ (map run s.active ++ map run s.pending)

  -- The outcomes of all coroutines are the same throughout, up to their order.
  abbrev pub Tallies : List C → Stage C T → Type 0
  Tallies coros (collecting s) = Permᴰ (outcomes s) (map run coros)
  Tallies coros (finished_with values) = Permᴰ (map ok values) (map run coros)
  Tallies coros (broken e) = (c : C) × Among c coros × (run c ≡ err e)

  map-middle :
      (xs : List C) (c : C) (ys : List C)
      → Permᴰ (run c ∷ map run (xs ++ ys)) (map run (xs ++ c ∷ ys))
  map-middle xs c ys =
      rw (map-append run xs ys, map-append run xs (c ∷ ys))
        (Permᴰ.symm (Permᴰ.middle (run c) (map run xs) (map run ys)))

  entered :
      (known : List (Result T)) (active xs ys : List C) (c : C)
      → Permᴰ
          (known ++ (map run (c ∷ active) ++ map run (xs ++ ys)))
          (known ++ (map run active ++ map run (xs ++ c ∷ ys)))
  entered known active xs ys c = Permᴰ.append_left known (
      Permᴰ.trans (Permᴰ.symm (Permᴰ.middle (run c) (map run active) (map run (xs ++ ys))))
        (Permᴰ.append_left (map run active) (map-middle xs c ys)))

  completed :
      (collected offered : List T) (value : T) (xs ys : List C) (c : C) (rest : List (Result T))
      → run c ≡ ok value
      → Permᴰ
          (map ok (collected ++ (offered ++ value ∷ [])) ++ (map run (xs ++ ys) ++ rest))
          (map ok (collected ++ offered) ++ (map run (xs ++ c ∷ ys) ++ rest))
  completed collected offered value xs ys c rest e =
      let known : map ok (collected ++ (offered ++ value ∷ [])) ++ (map run (xs ++ ys) ++ rest)
          ≡ map ok (collected ++ offered) ++ (run c ∷ (map run (xs ++ ys) ++ rest)) =
        cc (
          sym (append_assoc collected offered (value ∷ [])),
          map-append {B = Result T} ok (collected ++ offered) (value ∷ []),
          append_assoc (map ok (collected ++ offered)) (ok value ∷ []) (map run (xs ++ ys) ++ rest),
          e,
        ) in
      rw known (
        Permᴰ.append_left (map ok (collected ++ offered))
          (Permᴰ.append_right rest (map-middle xs c ys)))

  failed_one :
      (coros : List C) (s : Collection C T) (xs ys : List C) (c : C) (e : Error)
      → s.active ≡ xs ++ c ∷ ys
      → run c ≡ err e
      → Permᴰ (outcomes s) (map run coros)
      → (c : C) × Among c coros × (run c ≡ err e)
  failed_one coros s xs ys c e a h tally =
      let here : Among (run c) (map run s.active) =
        subst (λ cs. Among (run c) (map run cs)) (sym a)
          (Among-map run c (xs ++ c ∷ ys) (Among-at xs c ys)) in
      let known : Among (run c) (outcomes s) =
        Among-right (run c) (map ok (s.collected ++ s.offered)) _
          (Among-left (run c) (map run s.active) _ here) in
      let (d, m, same) = map-Among run (run c) coros (Among-perm (run c) tally known) in
      (d, m, same ∙ h)

  end_coroutine-Tallies :
      (coros : List C) (s : Collection C T) (xs ys : List C) (c : C) (r : Result T)
      → s.active ≡ xs ++ c ∷ ys
      → run c ≡ r
      → Permᴰ (outcomes s) (map run coros)
      → Tallies coros (end_coroutine r (record s { active = xs ++ ys }))
  end_coroutine-Tallies coros s xs ys c (ok value) a h tally =
      Permᴰ.trans (completed s.collected s.offered value xs ys c (map run s.pending) h) (
        subst
          (λ cs.
            Permᴰ (map ok (s.collected ++ s.offered) ++ (map run cs ++ map run s.pending))
              (map run coros))
          a tally)
  end_coroutine-Tallies coros s xs ys c (err e) a h tally = failed_one coros s xs ys c e a h tally

  Move-Tallies :
      (coros : List C) (s : Collection C T) {stage : Stage C T}
      → Permᴰ (outcomes s) (map run coros)
      → Move limit run s stage
      → Tallies coros stage
  Move-Tallies coros s tally (enters xs ys c e room) =
      Permᴰ.trans (entered (map ok (s.collected ++ s.offered)) s.active xs ys c) (
        subst
          (λ ps.
            Permᴰ (map ok (s.collected ++ s.offered) ++ (map run s.active ++ map run ps))
              (map run coros))
          e tally)
  Move-Tallies coros s tally (completes xs ys c e) =
      end_coroutine-Tallies coros s xs ys c (run c) e refl tally
  Move-Tallies coros s tally (takes value rest e) =
      rw (append_assoc s.collected (value ∷ []) rest) (
        subst
          (λ os.
            Permᴰ (map ok (s.collected ++ os) ++ (map run s.active ++ map run s.pending))
              (map run coros))
          e tally)
  Move-Tallies coros s tally (stops p a o) =
      subst (λ known. Permᴰ known (map run coros))
        (cc (p, a, o, append-nil s.collected, append-nil (map {B = Result T} ok s.collected))) tally

  -- When the loop over acollect ends, it has got the value of each coroutine once, in some order, if no
  -- coroutine has raised an exception; and an exception that ends it is that of one of the coroutines.
  pub Runs-Tallies :
      (coros : List C) (stage : Stage C T)
      → Runs limit run (begun coros) stage
      → Tallies coros stage
  Runs-Tallies coros (collecting s) begins = Permᴰ.refl (map run coros)
  Runs-Tallies coros stage (then {s = s} before move) =
      Move-Tallies coros s (Runs-Tallies coros (collecting s) before) move

-- ===== src/Util/Collect/Progress.antt =====
-- The steps that `acollect` of src/demagnetize/util.py has left, and its limiter.
use demagnetize.Prelude.{
  ℕ, ◌+◌, ◌*◌, ◌<◌, ◌≤◌, ◌≡◌, refl, ap, Option, none, some, List, [], ◌∷◌, ◌++◌, length, arith,
}
use demagnetize.Prelude.Positions.{length-insert, length-add}
use demagnetize.Errors.{Result, ok, err}
use demagnetize.Util.Collect.{
  Collection, Stage, collecting, HasRoom, end_coroutine, begun, Move, enters, completes, takes,
  stops, Runs, begins, then,
}

-- How much there is to do.
abbrev pub workload : {C T : Type 0} → Collection C T → ℕ
workload s = 3 * length s.pending + 2 * length s.active + length s.offered

-- A limiter that lets some task through.
abbrev pub IsOpen : Option ℕ → Type 0
IsOpen none = Unit
IsOpen (some limit) = 0 < limit

abbrev pub Limited : Option ℕ → ℕ → Type 0
Limited none n = Unit
Limited (some limit) n = n ≤ limit

Limited-zero : (limit : Option ℕ) → Limited limit 0
Limited-zero none = tt
Limited-zero (some limit) = omega arith

room_of : (limit : Option ℕ) (n : ℕ) → IsOpen limit → n ≡ 0 → HasRoom limit n
room_of none n h e = tt
room_of (some limit) n h e = omega arith

Limited-suc : (limit : Option ℕ) (n m : ℕ) → HasRoom limit n → m ≡ 1 + n → Limited limit m
Limited-suc none n m h e = tt
Limited-suc (some limit) n m h e = omega arith

Limited-le : (limit : Option ℕ) (n m : ℕ) → Limited limit n → m ≤ n → Limited limit m
Limited-le none n m h e = tt
Limited-le (some limit) n m h e = omega arith

module _ {C T : Type 0} (limit : Option ℕ) (run : C → Result T) where
  abbrev Decreases : ℕ → Stage C T → Type 0
  Decreases n (collecting s) = workload s < n
  Decreases n _ = Unit

  end_coroutine-Decreases :
      (n : ℕ) (r : Result T) (s : Collection C T)
      → workload s + 1 < n
      → Decreases n (end_coroutine r s)
  end_coroutine-Decreases n (ok value) s h = omega (arith, length-add s.offered value)
  end_coroutine-Decreases n (err e) s h = tt

  Move-Decreases :
      (s : Collection C T) {stage : Stage C T}
      → Move limit run s stage
      → Decreases (workload s) stage
  Move-Decreases s (enters xs ys c e room) = omega (arith, ap length e, length-insert xs c ys)
  Move-Decreases s (completes xs ys c e) =
      end_coroutine-Decreases (workload s) (run c) (record s { active = xs ++ ys })
        (omega (arith, ap length e, length-insert xs c ys))
  Move-Decreases s (takes value rest e) = omega (arith, ap length e)
  Move-Decreases s (stops p a o) = tt

  moving :
      IsOpen limit
      → (s : Collection C T) (pending active : List C) (offered : List T) → s.pending ≡ pending
      → s.active ≡ active
      → s.offered ≡ offered
      → (stage : Stage C T) × Move limit run s stage
  moving h s p (c ∷ cs) o ep ea eo = (_, completes [] cs c ea)
  moving h s p [] (v ∷ vs) ep ea eo = (_, takes v vs eo)
  moving h s (c ∷ cs) [] [] ep ea eo = (
    _,
    enters [] cs c ep (
        room_of limit (length s.active + length s.offered) h
          (omega (arith, ap length ea, ap length eo))),
  )
  moving h s [] [] [] ep ea eo = (_, stops ep ea eo)

  abbrev Bounded : Stage C T → Type 0
  Bounded (collecting s) = Limited limit (length s.active + length s.offered)
  Bounded _ = Unit

  end_coroutine-Bounded :
      (r : Result T) (s : Collection C T) (n : ℕ)
      → Limited limit n
      → 1 + (length s.active + length s.offered) ≤ n
      → Bounded (end_coroutine r s)
  end_coroutine-Bounded (ok value) s n h l =
      Limited-le limit n _ h (omega (arith, length-add s.offered value))
  end_coroutine-Bounded (err e) s n h l = tt

  Move-Bounded :
      (s : Collection C T) {stage : Stage C T}
      → Bounded (collecting s)
      → Move limit run s stage
      → Bounded stage
  Move-Bounded s h (enters xs ys c e room) =
      Limited-suc limit (length s.active + length s.offered) _ room (omega arith)
  Move-Bounded s h (completes xs ys c e) =
      end_coroutine-Bounded (run c) (record s { active = xs ++ ys })
        (length s.active + length s.offered) h (omega (arith, ap length e, length-insert xs c ys))
  Move-Bounded s h (takes value rest e) =
      Limited-le limit (length s.active + length s.offered) _ h (omega (arith, ap length e))
  Move-Bounded s h (stops p a o) = tt

  Runs-Bounded :
      (coros : List C) {stage : Stage C T} → Runs limit run (begun coros) stage → Bounded stage
  Runs-Bounded coros begins = Limited-zero limit
  Runs-Bounded coros (then {s = s} before move) = Move-Bounded s (Runs-Bounded coros before) move

  -- If the limiter lets some task through: as long as a run of acollect goes on, no more tasks are past
  -- the limiter than it lets through, some step can be taken, and each step leaves less to do, so that
  -- the run ends in whatever order the tasks are run.
  pub Runs-workload :
      (coros : List C) (s : Collection C T)
      → IsOpen limit
      → Runs limit run (begun coros) (collecting s)
      → Limited limit (length s.active + length s.offered)
        × ((stage : Stage C T) × Move limit run s stage)
        × ((s' : Collection C T) → Move limit run s (collecting s') → workload s' < workload s)
  Runs-workload coros s h runs = (
    Runs-Bounded coros runs,
    moving h s s.pending s.active s.offered refl refl refl,
    λ s' move. Move-Decreases s move,
  )

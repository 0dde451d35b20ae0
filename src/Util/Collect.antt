-- ===== src/Util/Collect.antt =====
-- `acollect` of src/demagnetize/util.py as a machine whose steps are those of its tasks and of the loop
-- over what they send.
pub mod Progress
pub mod Results
use demagnetize.Prelude.{ℕ, ◌+◌, ◌<◌, ◌≡◌, Option, none, some, List, [], ◌∷◌, ◌++◌, length}
use demagnetize.Errors.{Error, Result, ok, err}

-- The tasks that wait for the limiter, those that run their coroutine, the values that are offered to
-- the stream by tasks which still hold the limiter, and the values that the loop has got.
pub record Collection (C T : Type 0) : Type 0 where
  pub pending : List C
  pub active : List C
  pub offered : List T
  pub collected : List T

-- The tasks go on, the loop has ended, or a coroutine's exception has ended all.
pub data Stage (C T : Type 0) : Type 0 where
  collecting : Collection C T → Stage C T
  finished_with : List T → Stage C T
  broken : Error → Stage C T

-- `if limit is not None: await stack.enter_async_context(limit)`
abbrev pub HasRoom : Option ℕ → ℕ → Type 0
HasRoom none n = Unit
HasRoom (some limit) n = n < limit

module _ {C T : Type 0} where
  -- `value = await coro`, and on to the send
  abbrev pub end_coroutine : Result T → Collection C T → Stage C T
  end_coroutine (ok value) s = collecting (record s { offered = s.offered ++ value ∷ [] })
  end_coroutine (err e) s = broken e

  -- All tasks are started.
  abbrev pub begun : List C → Collection C T
  begun coros = record { pending = coros; active = []; offered = []; collected = [] }

-- `run` is what a coroutine comes to.
module _ {C T : Type 0} (limit : Option ℕ) (run : C → Result T) where
  pub data Move (s : Collection C T) : Stage C T → Type 0 where
    enters :
        (xs ys : List C) (c : C)
        → s.pending ≡ xs ++ c ∷ ys
        → HasRoom limit (length s.active + length s.offered)
        → Move s (collecting (record s { pending = xs ++ ys; active = c ∷ s.active }))
    completes :
        (xs ys : List C) (c : C)
        → s.active ≡ xs ++ c ∷ ys
        → Move s (end_coroutine (run c) (record s { active = xs ++ ys }))
    takes :
        (value : T) (rest : List T)
        → s.offered ≡ value ∷ rest
        → Move s (collecting (record s { offered = rest; collected = s.collected ++ value ∷ [] }))
    stops : s.pending ≡ [] → s.active ≡ [] → s.offered ≡ [] → Move s (finished_with s.collected)

  pub data Runs (start : Collection C T) : Stage C T → Type 0 where
    begins : Runs start (collecting start)
    then :
        {s : Collection C T} {stage : Stage C T}
        → Runs start (collecting s)
        → Move s stage
        → Runs start stage

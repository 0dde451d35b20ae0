-- ===== src/Batch/Status.antt =====
-- The exit status of `batch` of src/demagnetize/__main__.py.
use demagnetize.Prelude.{◌≡◌, ◌↔◌, Bool, true, false, is_empty, List, Bytes}
use demagnetize.Errors.{Error, Result, ok, err, Yields, in_group, exception_group}
use demagnetize.Prelude.Positions.{Among}
use demagnetize.Batch.{demagnetize2file, is_demagnetize_error}
use demagnetize.Batch.Saved.{IsSaved}

pub in_group-eq-ok : {A : Type 0} (r : Result A) {a : A} → in_group r ≡ ok a → r ≡ ok a
in_group-eq-ok (ok a) h = h
in_group-eq-ok (err e) h = cc

module _ {M Torrent : Type 0} (demagnetize : M → Result Torrent) (filename : Torrent → Result Bytes)
    (save : Bytes → Torrent → Result (Unit {0})) where
  -- When the exit status is 0: all links are saved, and without links all lines are links or no lines.
  abbrev pub Succeeds : List M → Bool → Type 0
  Succeeds ms good =
      (is_empty ms ≡ true → good ≡ true)
      × ((m : M) → Among m ms → IsSaved demagnetize filename save m)

  -- An order in which links are done has the same links.
  abbrev pub Orders : (List M → List M) → Type 0
  Orders order = (ms : List M) (m : M) → Among m (order ms) ↔ Among m ms

  Returns : {A : Type 0} → Result A → Type 0
  Returns r = Yields (λ _. Unit {0}) (λ _. ⊥) r

  -- An exception of one of the links, which demagnetize2file does not catch.
  abbrev pub IsEscape : List M → Error → Type 0
  IsEscape ms e =
      (m : M) × Among m ms
      × (demagnetize2file demagnetize filename save m ≡ err e)
      × (is_demagnetize_error e ≡ false)

  -- What batch raises: what has escaped of one of the links, in the group of acollect's tasks.
  abbrev pub IsGroupOf : List M → Error → Type 0
  IsGroupOf ms e = (x : Error) × (e ≡ exception_group x) × IsEscape ms x

-- ===== src/Batch/Interleaving.antt =====
-- `download_torrent_info` of src/demagnetize/core.py over `acollect` of src/demagnetize/util.py.
use demagnetize.Prelude.{
  inl, inr, ℕ, ◌≡◌, refl, sym, ap, subst, ◌∙◌, Bool, ◌&&◌, not, is_empty, Option, some, List, [],
  ◌∷◌, ◌++◌, map, append_assoc, length, Bytes, arith,
}
use demagnetize.Errors.{Error, err, exception_group, Result-cases, Result, ok, >>=-eq-ok}
use demagnetize.Util.Collect.{finished_with, broken, begun, Runs}
use demagnetize.Util.Collect.Results.{Runs-Tallies}
use demagnetize.Batch.{
  reports, Report, is_some, total, count_saved, finished, all_saved, is_ok, add_report, sum_reports,
  demagnetize2file, download_torrent_info, magnet_limit,
}
use demagnetize.Batch.Aborts.{sum_reports-each}
use mathlib.Core.List.{Permᴰ}
use mathlib.Core.List.Permᴰ
use mathlib.Core.Quot
use mathlib.Core.Quot.{Quot}

-- The entries of a report up to their order.
abbrev pub Entries : Type 0 → Type 0
Entries M = Quot (Permᴰ {A = M × Option Bytes})

and-swap : (a b c : Bool) → (a && (b && c)) ≡ (b && (a && c))
and-swap a b c = ground arith

module _ {M : Type 0} where
  abbrev pub entries : Report M → Entries M
  entries r = Quot.mk r.downloads

  count_saved-perm :
      {xs ys : List (M × Option Bytes)} → Permᴰ xs ys → count_saved xs ≡ count_saved ys
  count_saved-perm Permᴰ.nil = refl
  count_saved-perm (Permᴰ.cons e d) = cc (e, count_saved-perm d)
  count_saved-perm (Permᴰ.swap {l = l} e f) =
      omega (arith, ap (λ d. count_saved (d ∷ [])) e, ap (λ d. count_saved (d ∷ [])) f)
  count_saved-perm (Permᴰ.trans d₁ d₂) = count_saved-perm d₁ ∙ count_saved-perm d₂

  length-perm : {xs ys : List (M × Option Bytes)} → Permᴰ xs ys → length xs ≡ length ys
  length-perm Permᴰ.nil = refl
  length-perm (Permᴰ.cons e d) = omega (arith, length-perm d)
  length-perm (Permᴰ.swap e f) = refl
  length-perm (Permᴰ.trans d₁ d₂) = length-perm d₁ ∙ length-perm d₂

  all_saved-perm : {xs ys : List (M × Option Bytes)} → Permᴰ xs ys → all_saved xs ≡ all_saved ys
  all_saved-perm Permᴰ.nil = refl
  all_saved-perm (Permᴰ.cons e d) = cc (e, all_saved-perm d)
  all_saved-perm (Permᴰ.swap {a = a} {b = b} {l = l} e f) =
      cc (e, f, and-swap (is_some a.1) (is_some b.1) (all_saved l))
  all_saved-perm (Permᴰ.trans d₁ d₂) = all_saved-perm d₁ ∙ all_saved-perm d₂

  is_empty-perm : {xs ys : List (M × Option Bytes)} → Permᴰ xs ys → is_empty xs ≡ is_empty ys
  is_empty-perm Permᴰ.nil = refl
  is_empty-perm (Permᴰ.cons e d) = refl
  is_empty-perm (Permᴰ.swap e f) = refl
  is_empty-perm (Permᴰ.trans d₁ d₂) = is_empty-perm d₁ ∙ is_empty-perm d₂

  -- What `batch` looks at in a report is a function of its entries up to order.
  unfoldable finished_of : Entries M → ℕ
  finished_of = Quot.lift (hlevel) count_saved λ xs ys d. count_saved-perm d

  unfoldable total_of : Entries M → ℕ
  total_of = Quot.lift (hlevel) length λ xs ys d. length-perm d

  unfoldable is_ok_of : Entries M → Bool
  is_ok_of =
      Quot.lift (hlevel) (λ ds. not (is_empty ds) && all_saved ds)
        λ xs ys d. cc (is_empty-perm d, all_saved-perm d)

  -- Two reports that batch cannot tell apart.
  abbrev pub Agrees : Report M → Report M → Type 0
  Agrees r r' =
      (entries r ≡ entries r')
      × (finished r ≡ finished r')
      × (total r ≡ total r')
      × (is_ok r ≡ is_ok r')

  entries-Agrees : (r r' : Report M) → entries r ≡ entries r' → Agrees r r'
  unfolding finished_of total_of is_ok_of
  entries-Agrees r r' e = (e, ap finished_of e, ap total_of e, ap is_ok_of e)

  -- One report more is added.
  added :
      {x : Result (Report M)} {other : Report M} (rs : List (Result (Report M))) (acc r : Report M)
      → x ≡ ok other
      → sum_reports (add_report acc other) rs ≡ ok r
      → sum_reports acc (x ∷ rs) ≡ ok r
  unfolding sum_reports
  added rs acc r e h = rw e h

  sum_reports-start :
      (rs : List (Result (Report M))) (acc acc' r' : Report M)
      → Permᴰ acc.downloads acc'.downloads
      → sum_reports acc' rs ≡ ok r'
      → (r : Report M) × (sum_reports acc rs ≡ ok r) × Permᴰ r.downloads r'.downloads
  unfolding sum_reports
  sum_reports-start [] acc acc' r' p h =
      (acc, refl, subst (λ (r : Report M). Permᴰ acc.downloads r.downloads) (cc h) p)
  sum_reports-start (x ∷ rs) acc acc' r' p h =
      let (other, e, rest) = >>=-eq-ok x (λ other. sum_reports (add_report acc' other) rs) h in
      let (r, s, q) =
        sum_reports-start rs (add_report acc other) (add_report acc' other) r'
          (Permᴰ.append_right other.downloads p) rest in
      (r, added rs acc r e s, q)

  sum_reports-perm :
      {rs rs' : List (Result (Report M))} (acc acc' r' : Report M)
      → Permᴰ rs rs'
      → Permᴰ acc.downloads acc'.downloads
      → sum_reports acc' rs' ≡ ok r'
      → (r : Report M) × (sum_reports acc rs ≡ ok r) × Permᴰ r.downloads r'.downloads
  unfolding sum_reports
  sum_reports-perm acc acc' r' Permᴰ.nil p h =
      (acc, refl, subst (λ (r : Report M). Permᴰ acc.downloads r.downloads) (cc h) p)
  sum_reports-perm acc acc' r' (Permᴰ.cons {b = b} {l₁ = l₁} {l₂ = l₂} e d) p h =
      let (other, f, rest) = >>=-eq-ok b (λ other. sum_reports (add_report acc' other) l₂) h in
      let (r, s, q) =
        sum_reports-perm (add_report acc other) (add_report acc' other) r' d
          (Permᴰ.append_right other.downloads p) rest in
      (r, added l₁ acc r (e ∙ f) s, q)
  sum_reports-perm acc acc' r' (Permᴰ.swap {b = b} {a' = a'} {b' = b'} {l = l} e f) p h =
      let (one, g, rest) = >>=-eq-ok a' (λ other. sum_reports (add_report acc' other) (b' ∷ l)) h in
      let (two, k, more) =
        >>=-eq-ok b' (λ other. sum_reports (add_report (add_report acc' one) other) l) rest in
      let swapped : Permᴰ ((acc.downloads ++ two.downloads) ++ one.downloads)
          ((acc'.downloads ++ one.downloads) ++ two.downloads) =
        rw
          (
            append_assoc acc.downloads two.downloads one.downloads,
            append_assoc acc'.downloads one.downloads two.downloads,
          )
          (Permᴰ.trans
            (Permᴰ.append_left acc.downloads (Permᴰ.append_comm two.downloads one.downloads))
            (Permᴰ.append_right (one.downloads ++ two.downloads) p)) in
      let (r, s, q) =
        sum_reports-start l (add_report (add_report acc two) one)
          (add_report (add_report acc' one) two) r' swapped more in
      (r, added (b ∷ l) acc r (e ∙ k) (added l (add_report acc two) r (f ∙ g) s), q)
  sum_reports-perm acc acc' r' (Permᴰ.trans d₁ d₂) p h =
      let (r, s, q) = sum_reports-perm acc acc' r' d₂ p h in
      let (r₁, s₁, q₁) = sum_reports-perm acc acc r d₁ (Permᴰ.refl acc.downloads) s in
      (r₁, s₁, Permᴰ.trans q₁ q)

module _ {M Torrent : Type 0} (demagnetize : M → Result Torrent) (filename : Torrent → Result Bytes)
    (save : Bytes → Torrent → Result (Unit {0})) where
  -- What download_torrent_info over acollect may come to: the report of its loop over what acollect gave
  -- it, or the exception that ended acollect's tasks.
  pub data Downloads (ms : List M) : Result (Report M) → Type 0 where
    gathers :
        (values : List (Report M)) (r : Report M)
        → Runs
            (some magnet_limit)
            (demagnetize2file demagnetize filename save)
            (begun ms)
            (finished_with values)
        → sum_reports (record { downloads = [] }) (map ok values) ≡ ok r
        → Downloads ms (ok r)
    aborts :
        (e : Error)
        → Runs
            (some magnet_limit)
            (demagnetize2file demagnetize filename save)
            (begun ms)
            (broken e)
        → Downloads ms (err (exception_group e))

  -- Two runs that report alike, or both end with an exception.
  abbrev pub Matches : Result (Report M) → Result (Report M) → Type 0
  Matches (ok r) (ok r') = Agrees r r'
  Matches (err e) (err e') = Unit
  Matches _ _ = ⊥

  gathers-Matches :
      (ms : List M) (values : List (Report M)) (r : Report M)
      → Runs
          (some magnet_limit)
          (demagnetize2file demagnetize filename save)
          (begun ms)
          (finished_with values)
      → sum_reports (record { downloads = [] }) (map ok values) ≡ ok r
      → Matches (ok r) (download_torrent_info demagnetize filename save ms)
  unfolding download_torrent_info
  gathers-Matches ms values r runs h =
      let tally =
        Runs-Tallies (some magnet_limit) (demagnetize2file demagnetize filename save) ms
          (finished_with values) runs in
      let (r', e, d) = sum_reports-perm _ _ r (Permᴰ.symm tally) (Permᴰ.refl []) h in
      rw e (entries-Agrees r r' (sym (Quot.sound d)))

  aborts-Matches :
      (ms : List M) (e : Error)
      → Runs (some magnet_limit) (demagnetize2file demagnetize filename save) (begun ms) (broken e)
      → Matches (err (exception_group e)) (download_torrent_info demagnetize filename save ms)
  unfolding download_torrent_info
  aborts-Matches ms e runs =
      let (m, among, raised) =
        Runs-Tallies (some magnet_limit) (demagnetize2file demagnetize filename save) ms (broken e)
          runs in
      elim (Result-cases
        (sum_reports (record { downloads = [] }) (reports demagnetize filename save ms))) [
          | inl (r, made) ↦
              let (one, is) = sum_reports-each demagnetize filename save ms _ r m made among in
              cc (raised, is)
          | inr (x, ended) ↦ rw ended tt
        ]

  -- In whatever order the tasks of acollect are run, download_torrent_info comes to what it comes to when
  -- the links are done one by one: to a report with the same entries, up to their order, and so the same
  -- numbers and the same ok; or to an exception, if that does.
  pub Downloads-download_torrent_info :
      (ms : List M) (end : Result (Report M))
      → Downloads ms end
      → Matches end (download_torrent_info demagnetize filename save ms)
  Downloads-download_torrent_info ms _ (gathers values r runs h) =
      gathers-Matches ms values r runs h
  Downloads-download_torrent_info ms _ (aborts e runs) = aborts-Matches ms e runs

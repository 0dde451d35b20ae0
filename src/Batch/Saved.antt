-- ===== src/Batch/Saved.antt =====
-- The reports of src/demagnetize/util.py and the links they name as saved.
use demagnetize.Prelude.{
  subst, Bool-cases, ◌≡◌, refl, sym, ◌∙◌, ◌⊎◌, ◌↔◌, inl, inr, Bool, true, false, ◌&&◌, is_empty,
  Option, none, some, List, [], ◌∷◌, ◌++◌, Bytes,
}
use demagnetize.Errors.{Error, Result, ok, err, ◌>>=◌, >>=-eq-ok}
use demagnetize.Prelude.Positions.{Among}
use demagnetize.Batch.{
  Report, for_success, for_failure, all_saved, add_report, sum_reports, saved, save_torrent,
  demagnetize2file, reports, is_demagnetize_error,
}

pub and-true : (a b : Bool) → (a && b) ≡ true → (a ≡ true) × (b ≡ true)
and-true true true h = (refl, refl)
and-true true false h = cc
and-true false b h = cc

is_empty-append : {A : Type 0} (xs ys : List A) → is_empty ys ≡ false → is_empty (xs ++ ys) ≡ false
is_empty-append [] ys h = h
is_empty-append (x ∷ xs) ys h = refl

module _ {M Torrent : Type 0} (demagnetize : M → Result Torrent) (filename : Torrent → Result Bytes)
    (save : Bytes → Torrent → Result (Unit {0})) where
  -- The torrent of a link was downloaded and written.
  abbrev pub IsSaved : M → Type 0
  IsSaved m =
      (torrent : Torrent) × (name : Bytes) × (demagnetize m ≡ ok torrent)
      × (filename torrent ≡ ok name)
      × (save name torrent ≡ ok tt)

  all_saved-append :
      (xs ys : List (M × Option Bytes)) → all_saved (xs ++ ys) ≡ (all_saved xs && all_saved ys)
  all_saved-append [] ys = refl
  all_saved-append ((m, none) ∷ xs) ys = refl
  all_saved-append ((m, some f) ∷ xs) ys = all_saved-append xs ys

  -- A report is of one link, and good just if its torrent was saved.
  abbrev Reports : M → Report M → Type 0
  Reports m r = (is_empty r.downloads ≡ false) × ((all_saved r.downloads ≡ true) ↔ IsSaved m)

  failed : (m : M) (r : Report M) → ok (for_failure m) ≡ ok r → (IsSaved m → ⊥) → Reports m r
  failed m r h never =
      let same : r ≡ for_failure m = cc h in
      subst (Reports m) (sym same) (refl, ((λ good. cc good), λ is. absurd (never is)))

  written :
      (m : M) (torrent : Torrent) (name : Bytes) (r : Report M) (s : Result (Unit {0}))
      → demagnetize m ≡ ok torrent
      → filename torrent ≡ ok name
      → save name torrent ≡ s
      → ok (saved m name s) ≡ ok r
      → Reports m r
  written m torrent name r (ok tt) d n e h =
      let same : r ≡ for_success m name = cc h in
      subst (Reports m) (sym same) (refl, ((λ _. (torrent, name, d, n, e)), λ _. refl))
  written m torrent name r (err x) d n e h =
      failed m r h λ (torrent', name', d', n', e'). cc (d, n, e, d', n', e')

  refused :
      (m : M) (x : Error) (r : Report M)
      → save_torrent demagnetize filename save m (err x) ≡ ok r
      → (IsSaved m → ⊥)
      → Reports m r
  refused m x r h never = elim (Bool-cases (is_demagnetize_error x)) [
    | inl caught ↦ failed m r (rw caught at h) never
    | inr other ↦ absurd (cc (h, other))
  ]

  named :
      (m : M) (torrent : Torrent) (n : Result Bytes) (r : Report M)
      → demagnetize m ≡ ok torrent
      → filename torrent ≡ n
      → save_torrent demagnetize filename save m (n >>= λ name. ok (torrent, name)) ≡ ok r
      → Reports m r
  named m torrent (ok name) r d e h = written m torrent name r (save name torrent) d e refl h
  named m torrent (err x) r d e h =
      refused m x r h λ (torrent', name', d', n', e'). cc (d, e, d', n')

  downloaded :
      (m : M) (d : Result Torrent) (r : Report M)
      → demagnetize m ≡ d
      → save_torrent demagnetize filename save m
          (d >>= λ torrent. filename torrent >>= λ name. ok (torrent, name))
        ≡ ok r
      → Reports m r
  downloaded m (ok torrent) r e h = named m torrent (filename torrent) r e refl h
  downloaded m (err x) r e h = refused m x r h λ (torrent', name', d', n', e'). cc (e, d')

  one_report :
      (m : M) (r : Report M) → demagnetize2file demagnetize filename save m ≡ ok r → Reports m r
  unfolding demagnetize2file
  one_report m r h = downloaded m (demagnetize m) r refl h

  -- The sum of the reports is good just if the sum so far is and all torrents were saved.
  pub sum_reports-all :
      (ms : List M) (acc r : Report M)
      → sum_reports acc (reports demagnetize filename save ms) ≡ ok r
      → (all_saved r.downloads ≡ true)
        ↔ ((all_saved acc.downloads ≡ true) × ((m : M) → Among m ms → IsSaved m))
  unfolding sum_reports
  sum_reports-all [] acc r h =
      let same : acc ≡ r = cc h in
      ((λ good. (cc (good, same), λ m a. absurd a)), λ (good, _). cc (good, same))
  sum_reports-all (m ∷ ms) acc r h =
      let (one, e, rest) =
        >>=-eq-ok (demagnetize2file demagnetize filename save m)
          (λ other. sum_reports (add_report acc other) (reports demagnetize filename save ms)) h in
      let (_, (to, from)) = one_report m one e in
      let (to_all, from_all) = sum_reports-all ms (add_report acc one) r rest in
      let both = all_saved-append acc.downloads one.downloads in
      (
        λ good.
            let (front, others) = to_all good in
            let halves : (all_saved acc.downloads ≡ true) × (all_saved one.downloads ≡ true) =
              and-true (all_saved acc.downloads) (all_saved one.downloads) (sym both ∙ front) in
            (
              halves.0,
              λ q a. elim a [
                | inl same ↦ subst IsSaved (sym same) (to halves.1)
                | inr k ↦ others q k
              ],
            ),
        λ (good, each). from_all (cc (both, good, from (each m (inl refl))), λ q a. each q (inr a)),
      )

  pub sum_reports-not_empty :
      (ms : List M) (acc r : Report M)
      → sum_reports acc (reports demagnetize filename save ms) ≡ ok r
      → (is_empty acc.downloads ≡ false) ⊎ (is_empty ms ≡ false)
      → is_empty r.downloads ≡ false
  unfolding sum_reports
  sum_reports-not_empty [] acc r h (inl some_done) = cc (h, some_done)
  sum_reports-not_empty [] acc r h (inr full) = cc
  sum_reports-not_empty (m ∷ ms) acc r h k =
      let (one, e, rest) =
        >>=-eq-ok (demagnetize2file demagnetize filename save m)
          (λ other. sum_reports (add_report acc other) (reports demagnetize filename save ms)) h in
      let (full, _) = one_report m one e in
      sum_reports-not_empty ms (add_report acc one) r rest
        (inl (is_empty-append acc.downloads one.downloads full))

-- ===== src/Batch/Aborts.antt =====
-- The exceptions of a session's task group in `batch` of src/demagnetize/__main__.py.
use demagnetize.Prelude.{
  ℕ, ◌≡◌, refl, sym, subst, inl, inr, Bool, List, [], ◌∷◌, Bytes, if◌then◌else◌, ◌∙◌,
}
use demagnetize.Prelude.Positions.{Among}
use demagnetize.Errors.{Error, Result, ok, err, >>=-eq-ok, exception_group, Result-cases}
use demagnetize.Batch.{
  Report, add_report, is_ok, sum_reports, demagnetize2file, reports, download_torrent_info,
  exit_status, yield_lines, read_magnets, batch,
}
use demagnetize.Batch.Status.{Orders, in_group-eq-ok}

module _ {M Torrent : Type 0} (demagnetize : M → Result Torrent) (filename : Torrent → Result Bytes)
    (save : Bytes → Torrent → Result (Unit {0})) where
  -- A sum of reports is of reports that were all made.
  pub sum_reports-each :
      (ms : List M) (acc r : Report M) (m : M)
      → sum_reports acc (reports demagnetize filename save ms) ≡ ok r
      → Among m ms
      → (one : Report M) × (demagnetize2file demagnetize filename save m ≡ ok one)
  unfolding sum_reports
  sum_reports-each [] acc r m h a = absurd a
  sum_reports-each (x ∷ ms) acc r m h a =
      let (one, e, rest) =
        >>=-eq-ok (demagnetize2file demagnetize filename save x)
          (λ other. sum_reports (add_report acc other) (reports demagnetize filename save ms)) h in
      elim a [
        | inl same ↦
            (one, subst (λ q. demagnetize2file demagnetize filename save q ≡ ok one) (sym same) e)
        | inr k ↦ sum_reports-each ms (add_report acc one) r m rest k
      ]

  escapes :
      (m : M) (e : Error)
      → demagnetize m ≡ err (exception_group e)
      → demagnetize2file demagnetize filename save m ≡ err (exception_group e)
  unfolding demagnetize2file
  escapes m e h = rw h refl

  exit_status-group :
      (order : List M → List M) (ms : List M) (good : Bool) (m : M) (e : Error) (status : ℕ)
      → Orders demagnetize filename save order
      → Among m ms
      → demagnetize m ≡ err (exception_group e)
      → exit_status demagnetize filename save order (ms, good) ≡ ok status
      → ⊥
  unfolding exit_status download_torrent_info
  exit_status-group order [] good m e status same a h x = absurd a
  exit_status-group order (q ∷ ms) good m e status same a h x =
      let (r, made, _) =
        >>=-eq-ok (download_torrent_info demagnetize filename save (order (q ∷ ms)))
          (λ r. ok (if is_ok r then 0 else 1)) x in
      let (one, is) =
        sum_reports-each (order (q ∷ ms)) _ r m
          (in_group-eq-ok (sum_reports _ (reports demagnetize filename save (order (q ∷ ms)))) made)
          ((same (q ∷ ms) m).1 a) in
      cc (escapes m e h, is)

  -- If a line is a magnet link whose download ends with an exception of its session's task group, as it
  -- does when all of the link's peers fail, then batch ends with an exception, in whatever order the links
  -- are done and however many of the others can be downloaded: it neither exits nor reports.
  pub batch-Aborts :
      (strip : Bytes → Bytes) (parse_magnet : Bytes → Result M) (order : List M → List M)
      (lines : List Bytes) (ms : List M) (good : Bool) (m : M) (e : Error)
      → Orders demagnetize filename save order
      → read_magnets parse_magnet (yield_lines strip lines) ≡ ok (ms, good)
      → Among m ms
      → demagnetize m ≡ err (exception_group e)
      → (x : Error) × (batch demagnetize filename save strip parse_magnet order lines ≡ err x)
  unfolding batch
  batch-Aborts strip parse_magnet order lines ms good m e same read a h =
      let end = exit_status demagnetize filename save order (ms, good) in
      let runs : batch demagnetize filename save strip parse_magnet order lines ≡ end = cc (read) in
      elim (Result-cases end) [
        | inl (status, exits) ↦ absurd (exit_status-group order ms good m e status same a h exits)
        | inr (x, raised) ↦ (x, runs ∙ raised)
      ]

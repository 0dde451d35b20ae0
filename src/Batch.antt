-- ===== src/Batch.antt =====
-- The batch mode: `Report` and `yield_lines` of src/demagnetize/util.py, `demagnetize2file` and
-- `download_torrent_info` of src/demagnetize/core.py, and the exit status of the commands of
-- src/demagnetize/__main__.py.
pub mod Saved
pub mod Status
pub mod Aborts
pub mod Interleaving
use demagnetize.Prelude.{
  ℕ, ◌+◌, Bool, true, false, ◌&&◌, not, is_empty, Option, none, some, List, [], ◌∷◌, ◌++◌, map,
  length, Bytes, ◌==◌, if◌then◌else◌,
}
use demagnetize.Errors.{
  Error, Result, ok, err, ◌>>=◌, in_group, is_value_error, demagnetize_error, bad_parameter,
}

-- Report: the magnet links and the files that their torrents were saved to.
pub record Report (M : Type 0) : Type 0 where
  pub downloads : List (M × Option Bytes)

abbrev pub is_some : {A : Type 0} → Option A → Bool
is_some none = false
is_some (some _) = true

module _ {M : Type 0} where
  abbrev pub for_success : M → Bytes → Report M
  for_success m filename = record { downloads = (m, some filename) ∷ [] }

  abbrev pub for_failure : M → Report M
  for_failure m = record { downloads = (m, none) ∷ [] }

  abbrev pub total : Report M → ℕ
  total r = length r.downloads

  abbrev pub count_saved : List (M × Option Bytes) → ℕ
  count_saved [] = 0
  count_saved ((_, fname) ∷ ds) = (if is_some fname then 1 else 0) + count_saved ds

  abbrev pub finished : Report M → ℕ
  finished r = count_saved r.downloads

  abbrev pub all_saved : List (M × Option Bytes) → Bool
  all_saved [] = true
  all_saved ((_, fname) ∷ ds) = is_some fname && all_saved ds

  -- Report.ok
  abbrev pub is_ok : Report M → Bool
  is_ok r = not (is_empty r.downloads) && all_saved r.downloads

  -- Report.__iadd__
  abbrev pub add_report : Report M → Report M → Report M
  add_report r other = record { downloads = r.downloads ++ other.downloads }

  -- The loop of download_torrent_info over the reports as they come.
  unfoldable pub sum_reports : Report M → List (Result (Report M)) → Result (Report M)
  sum_reports report [] = ok report
  sum_reports report (r ∷ rs) = r >>= λ other. sum_reports (add_report report other) rs

-- MAGNET_LIMIT
abbrev pub magnet_limit : ℕ
magnet_limit = 50

abbrev pub is_demagnetize_error : Error → Bool
is_demagnetize_error demagnetize_error = true
is_demagnetize_error _ = false

-- `except ValueError: raise click.BadParameter(…)`
abbrev pub as_template : Bytes → Result Bytes → Result (Option Bytes)
as_template value (ok _) = ok (some value)
as_template value (err e) = if is_value_error e then err bad_parameter else err e

-- validate_template; `format` is str.format with a name and a hash.
abbrev pub validate_template : (Bytes → Result Bytes) → Option Bytes → Result (Option Bytes)
validate_template format none = ok none
validate_template format (some value) = as_template value (format value)

-- line.startswith("#")
abbrev pub is_comment : Bytes → Bool
is_comment [] = false
is_comment (c ∷ _) = c == b'#'

-- yield_lines; `strip` is str.strip.
unfoldable pub yield_lines : (Bytes → Bytes) → List Bytes → List Bytes
yield_lines strip [] = []
yield_lines strip (line ∷ lines) =
    let rest = yield_lines strip lines in
    let text = strip line in
    if not (is_empty text) && not (is_comment text) then text ∷ rest else rest

module _ {M : Type 0} where
  -- `except Exception: return Report.for_failure(magnet)`
  abbrev pub saved : M → Bytes → Result (Unit {0}) → Report M
  saved m name (ok _) = for_success m name
  saved m name (err _) = for_failure m

  -- One line of the loop in batch: `magnets.append(m)`, or `ok = False`.
  abbrev pub take_line : Result M → Result (List M × Bool) → Result (List M × Bool)
  take_line (ok m) rest = rest >>= λ (ms, good). ok (m ∷ ms, good)
  take_line (err e) rest =
      if is_value_error e then rest >>= (λ (ms, good). ok (ms, false)) else err e

  -- The loop in batch: the magnet links, and whether all lines are such.
  unfoldable pub read_magnets : (Bytes → Result M) → List Bytes → Result (List M × Bool)
  read_magnets parse_magnet [] = ok ([], true)
  read_magnets parse_magnet (line ∷ lines) =
      take_line (parse_magnet line) (read_magnets parse_magnet lines)

-- `demagnetize` downloads a torrent, `filename` makes its name from the template, and `save` writes it.
module _ {M Torrent : Type 0} (demagnetize : M → Result Torrent) (filename : Torrent → Result Bytes)
    (save : Bytes → Torrent → Result (Unit {0})) where
  -- `except DemagnetizeError: return Report.for_failure(magnet)`
  abbrev pub save_torrent : M → Result (Torrent × Bytes) → Result (Report M)
  save_torrent m (ok (torrent, name)) = ok (saved m name (save name torrent))
  save_torrent m (err e) = if is_demagnetize_error e then ok (for_failure m) else err e

  -- demagnetize2file
  unfoldable pub demagnetize2file : M → Result (Report M)
  demagnetize2file m =
      save_torrent m (demagnetize m >>= λ torrent. filename torrent >>= λ name. ok (torrent, name))

  abbrev pub reports : List M → List (Result (Report M))
  reports ms = map demagnetize2file ms

  -- download_torrent_info, of the magnet links in the order in which they are done; Batch/Interleaving is
  -- about the order.
  unfoldable pub download_torrent_info : List M → Result (Report M)
  download_torrent_info ms = in_group (sum_reports (record { downloads = [] }) (reports ms))

  -- get: the exit status
  abbrev pub get_status : M → Result ℕ
  get_status m = demagnetize2file m >>= λ r. ok (if is_ok r then 0 else 1)

  -- What follows the loop: the exit status. `order` puts the links in the order in which they are done.
  unfoldable pub exit_status : (List M → List M) → List M × Bool → Result ℕ
  exit_status order ([], good) = ok (if good then 0 else 1)
  exit_status order (m ∷ ms, good) =
      download_torrent_info (order (m ∷ ms)) >>= λ r. ok (if is_ok r then 0 else 1)

  -- batch
  unfoldable pub batch :
      (Bytes → Bytes) → (Bytes → Result M) → (List M → List M) → List Bytes → Result ℕ
  batch strip parse_magnet order lines =
      read_magnets parse_magnet (yield_lines strip lines) >>= exit_status order

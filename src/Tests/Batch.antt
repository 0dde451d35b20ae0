-- ===== src/Tests/Batch.antt =====
-- The batch mode at concrete inputs: a link that is saved, one whose download fails, and a line that is none.
use demagnetize.Prelude.{
  ℕ, ◌≡◌, refl, true, inl, inr, none, some, List, [], ◌∷◌, ◌==◌, Bytes, codes, if◌then◌else◌,
}
use demagnetize.Prelude.Order.{eq_bytes}
use demagnetize.Errors.{
  Error, key_error, bad_parameter, Result, ok, err, value_error, demagnetize_error, exception_group,
}
use demagnetize.Batch.{
  validate_template, yield_lines, read_magnets, batch, demagnetize2file, download_torrent_info,
  exit_status, sum_reports,
}
use demagnetize.Batch.Aborts.{batch-Aborts}

-- A link is its first byte; "b" cannot be downloaded.
abbrev link_of : Bytes → Result ℕ
link_of [] = err value_error
link_of (c ∷ _) = if c == b'?' then err value_error else ok c

abbrev download : ℕ → Result Bytes
download m = if m == b'b' then err demagnetize_error else ok (m ∷ [])

abbrev name_of : Bytes → Result Bytes
name_of t = ok t

abbrev write : Bytes → Bytes → Result (Unit {0})
write name t = ok tt

abbrev as_given : List ℕ → List ℕ
as_given ms = ms

abbrev unstripped : Bytes → Bytes
unstripped b = b

-- A template with a brace that is not closed is refused, and one with an unknown field makes a KeyError.
abbrev formats : Bytes → Result Bytes
formats value = if eq_bytes value (codes "{") then err value_error else err key_error

validate_template_runs :
    (validate_template formats (some (codes "{")) ≡ err bad_parameter)
    × (validate_template formats (some (codes "{nam}.torrent")) ≡ err key_error)
    × (validate_template formats none ≡ ok none)
unfolding eq_bytes
validate_template_runs = (refl, refl, refl)

-- A line that is no link does not show in the status if another line is one.
batch_runs :
    (batch download name_of write unstripped link_of as_given
        (codes "a" ∷ codes "#c" ∷ codes "" ∷ [])
      ≡ ok 0)
    × (batch download name_of write unstripped link_of as_given (codes "a" ∷ codes "b" ∷ []) ≡ ok 1)
    × (batch download name_of write unstripped link_of as_given (codes "?" ∷ []) ≡ ok 1)
    × (batch download name_of write unstripped link_of as_given (codes "?" ∷ codes "a" ∷ []) ≡ ok 0)
unfolding batch yield_lines read_magnets exit_status download_torrent_info sum_reports
    demagnetize2file
batch_runs = (refl, refl, refl, refl)

-- A link whose download ends with the group of a DemagnetizeError ends the whole batch.
abbrev download_grouped : ℕ → Result Bytes
download_grouped m = if m == b'b' then err (exception_group demagnetize_error) else ok (m ∷ [])

batch_aborts :
    batch download_grouped name_of write unstripped link_of as_given
      (codes "a" ∷ codes "b" ∷ codes "d" ∷ [])
    ≡ err (exception_group (exception_group demagnetize_error))
unfolding batch yield_lines read_magnets exit_status download_torrent_info sum_reports
    demagnetize2file
batch_aborts = refl

batch-Aborts_example :
    (x : Error) × (batch download_grouped name_of write unstripped link_of as_given
        (codes "a" ∷ codes "b" ∷ codes "d" ∷ [])
      ≡ err x)
unfolding read_magnets yield_lines
batch-Aborts_example =
    batch-Aborts download_grouped name_of write unstripped link_of as_given
      (codes "a" ∷ codes "b" ∷ codes "d" ∷ []) (b'a' ∷ b'b' ∷ b'd' ∷ []) true b'b' demagnetize_error
      (λ ms m. ((λ a. a), λ a. a)) refl (inr (inl refl)) refl

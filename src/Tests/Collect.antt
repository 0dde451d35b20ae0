-- ===== src/Tests/Collect.antt =====
-- acollect, the reports gathered over it, and InfoHash at concrete inputs.
use demagnetize.Prelude.{
  ℕ, ◌<◌, ◌≡◌, refl, [], ◌∷◌, none, some, Bytes, codes, replicate, arith, ◌==◌, if◌then◌else◌,
}
use demagnetize.Prelude.Hex.{hex}
use demagnetize.Errors.{Result, ok, err, value_error, demagnetize_error}
use demagnetize.Util.InfoHash.{
  from_string, from_hash_bytes, fromhex, b32decode, b32_quanta, from_string-hex,
}
use demagnetize.Util.Collect.{
  Collection, Stage, collecting, finished_with, begun, Move, enters, completes, takes, stops, Runs,
  begins, then,
}
use demagnetize.Util.Collect.Progress.{Runs-workload, Limited, workload}
use demagnetize.Util.Collect.Results.{Runs-Tallies, Tallies}
use demagnetize.Batch.{Report, demagnetize2file, download_torrent_info, sum_reports, magnet_limit}
use demagnetize.Batch.Interleaving.{Downloads, gathers, Matches, Downloads-download_torrent_info}
use demagnetize.Prelude.BigEndian.{big_endian}

abbrev twenty_letters : Bytes
twenty_letters = codes "abcdefghijklmnopqrst"

-- Lower case is no base 32.
from_string_runs :
    (from_string (codes "MFRGGZDFMZTWQ2LKNNWG23TPOBYXE43U")
      ≡ ok
          (record { as_str = codes "MFRGGZDFMZTWQ2LKNNWG23TPOBYXE43U"; as_bytes = twenty_letters }))
    × (from_string (codes "MFRGGZDFMZTWQ2LKNNWG23TPOBYXE43u") ≡ err value_error)
    × (from_string (codes "abc") ≡ err value_error)
unfolding from_string fromhex b32decode b32_quanta big_endian
from_string_runs = (refl, refl, refl)

-- 40 characters of which some are white space, and 32 of which some are padding, give no 20 bytes.
from_string_short :
    (from_string (replicate 40 b' ') ≡ ok (record { as_str = replicate 40 b' '; as_bytes = [] }))
    × (from_string (codes "MFRGGZDFMZTWQ2LKNNWG23TPOBYXE===")
        ≡ ok (record {
          as_str = codes "MFRGGZDFMZTWQ2LKNNWG23TPOBYXE===";
          as_bytes = codes "abcdefghijklmnopqr";
        }))
unfolding from_string fromhex b32decode b32_quanta big_endian
from_string_short = (refl, refl)

from_string-hex_example :
    (from_string (hex twenty_letters) ≡ from_hash_bytes twenty_letters)
    × (from_string (hex twenty_letters)
        ≡ ok (record { as_str = hex twenty_letters; as_bytes = twenty_letters }))
from_string-hex_example = from_string-hex twenty_letters (ground arith) refl

-- A link is a number; 7 cannot be downloaded.
abbrev download : ℕ → Result ℕ
download n = if n == 7 then err demagnetize_error else ok n

abbrev name_of : ℕ → Result Bytes
name_of n = ok (n ∷ [])

abbrev write : Bytes → ℕ → Result (Unit {0})
write name n = ok tt

abbrev task : ℕ → Result (Report ℕ)
task = demagnetize2file download name_of write

abbrev seventh : Report ℕ
seventh = record { downloads = (7, none) ∷ [] }

abbrev third : Report ℕ
third = record { downloads = (3, some (3 ∷ [])) ∷ [] }

-- Both tasks enter, and the second is done first.
swapped_Runs :
    Runs (some magnet_limit) task (begun (3 ∷ 7 ∷ [])) (finished_with (seventh ∷ third ∷ []))
unfolding demagnetize2file
swapped_Runs =
    (then)
      ((then)
        ((then)
          ((then)
            ((then)
              ((then) ((then) begins (enters [] (7 ∷ []) 3 refl (omega arith)))
                (enters [] [] 7 refl (omega arith)))
              (completes [] (3 ∷ []) 7 refl))
            (takes seventh [] refl))
          (completes [] [] 3 refl))
        (takes third [] refl))
      (stops refl refl refl)

entered_Runs :
    Runs
      (some magnet_limit)
      task
      (begun (3 ∷ 7 ∷ []))
      (collecting (record { pending = 7 ∷ []; active = 3 ∷ []; offered = []; collected = [] }))
entered_Runs = (then) begins (enters [] (7 ∷ []) 3 refl (omega arith))

abbrev swapped_report : Report ℕ
swapped_report = record { downloads = (7, none) ∷ (3, some (3 ∷ [])) ∷ [] }

swapped_Downloads : Downloads download name_of write (3 ∷ 7 ∷ []) (ok swapped_report)
unfolding sum_reports
swapped_Downloads = gathers (seventh ∷ third ∷ []) swapped_report swapped_Runs refl

Downloads-download_torrent_info_example :
    Matches download name_of write
      (ok swapped_report)
      (download_torrent_info download name_of write (3 ∷ 7 ∷ []))
Downloads-download_torrent_info_example =
    Downloads-download_torrent_info download name_of write (3 ∷ 7 ∷ []) (ok swapped_report)
      swapped_Downloads

Runs-Tallies_example :
    Tallies (some magnet_limit) task (3 ∷ 7 ∷ []) (finished_with (seventh ∷ third ∷ []))
Runs-Tallies_example =
    Runs-Tallies (some magnet_limit) task (3 ∷ 7 ∷ []) (finished_with (seventh ∷ third ∷ []))
      swapped_Runs

Runs-workload_example :
    Limited (some magnet_limit) 1
    × ((stage : Stage ℕ (Report ℕ)) × Move
          (some magnet_limit)
          task
          (record { pending = 7 ∷ []; active = 3 ∷ []; offered = []; collected = [] })
          stage)
    × ((s' : Collection ℕ (Report ℕ))
        → Move
            (some magnet_limit)
            task
            (record { pending = 7 ∷ []; active = 3 ∷ []; offered = []; collected = [] })
            (collecting s')
        → workload s' < 5)
Runs-workload_example =
    Runs-workload (some magnet_limit) task (3 ∷ 7 ∷ [])
      (record { pending = 7 ∷ []; active = 3 ∷ []; offered = []; collected = [] }) (omega arith)
      entered_Runs

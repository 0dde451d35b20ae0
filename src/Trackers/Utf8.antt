-- ===== src/Trackers/Utf8.antt =====
-- bytes.decode("utf-8") of src/demagnetize/trackers/http.py: which bytes it takes. Text is kept as the
-- bytes that encode it.
use demagnetize.Prelude.{
  ℕ, ◌≡◌, refl, Bool, true, false, ◌&&◌, Option, none, some, List, [], ◌∷◌, Bytes, codes, ltb, leb,
  ◌==◌, if◌then◌else◌,
}
use demagnetize.Errors.{Result, guard, ok, value_error, ◌>>◌}

-- The bytes of a character after its first, each by its lowest and highest value.
abbrev continuations : ℕ → Option (List (ℕ × ℕ))
continuations b =
    let more : ℕ × ℕ = (0x80, 0xBF) in
    if ltb b 0x80
    then some []
    else if ltb b 0xC2
    then none
    else if ltb b 0xE0
    then some (more ∷ [])
    else if b == 0xE0
    then some ((0xA0, 0xBF) ∷ more ∷ [])
    else if b == 0xED
    then some ((0x80, 0x9F) ∷ more ∷ [])
    else if ltb b 0xF0
    then some (more ∷ more ∷ [])
    else if b == 0xF0
    then some ((0x90, 0xBF) ∷ more ∷ more ∷ [])
    else if ltb b 0xF4
    then some (more ∷ more ∷ more ∷ [])
    else if b == 0xF4
    then some ((0x80, 0x8F) ∷ more ∷ more ∷ [])
    else none

-- Text that goes on with the bytes due, or, where none are, with a character.
abbrev pub is_utf8_from : List (ℕ × ℕ) → Bytes → Bool
is_utf8_from [] [] = true
is_utf8_from (_ ∷ _) [] = false
is_utf8_from [] (b ∷ bs) = elim (continuations b) [ none ↦ false | some due ↦ is_utf8_from due bs ]
is_utf8_from ((low, high) ∷ due) (b ∷ bs) = leb low b && leb b high && is_utf8_from due bs

abbrev pub is_utf8 : Bytes → Bool
is_utf8 b = is_utf8_from [] b

-- b.decode("utf-8")
abbrev pub decode_utf8 : Bytes → Result Bytes
decode_utf8 b = guard (is_utf8 b) value_error >> ok b

is_utf8_runs :
    (is_utf8 (codes "192.168.1.1") ≡ true)
    × (is_utf8 (0xC3 ∷ 0xA9 ∷ 0xE2 ∷ 0x82 ∷ 0xAC ∷ []) ≡ true)
    × (is_utf8 (0xC3 ∷ []) ≡ false)
    × (is_utf8 (0xED ∷ 0xA0 ∷ 0x80 ∷ []) ≡ false)
    × (is_utf8 (0xC0 ∷ 0x80 ∷ []) ≡ false)
is_utf8_runs = (refl, refl, refl, refl, refl)

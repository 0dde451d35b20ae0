-- ===== src/Util/Pathname.antt =====
-- `sanitize_pathname` and `template_torrent_filename` of src/demagnetize/util.py. A text is the list of its
-- characters' code points.
use demagnetize.Prelude.{
  ◌≤◌, ℕ, ◌≡◌, refl, ap, subst, ◌↔◌, suc, Bool, false, ◌||◌, ◌&&◌, List, [], ◌∷◌, ◌++◌, map, All,
  codes, length, ltb, leb, ◌==◌, if◌then◌else◌, arith,
}
use demagnetize.Prelude.Bits.{elem}
use demagnetize.Errors.{Result}

-- \s: what str.isspace says of a character.
abbrev pub is_space : ℕ → Bool
is_space c =
    leb 9 c && leb c 13
    || leb 28 c && leb c 32
    || c == 0x85
    || c == 0xA0
    || c == 0x1680
    || leb 0x2000 c && leb c 0x200A
    || c == 0x2028
    || c == 0x2029
    || c == 0x202F
    || c == 0x205F
    || c == 0x3000

-- [\0-\x1F\x5C/<>:|"?*]
abbrev pub is_forbidden : ℕ → Bool
is_forbidden c =
    ltb c 32
    || c == 0x5C
    || c == b'/'
    || c == b'<'
    || c == b'>'
    || c == b':'
    || c == b'|'
    || c == b'"'
    || c == b'?'
    || c == b'*'

abbrev pub space_out : ℕ → ℕ
space_out c = if is_space c then b' ' else c

abbrev pub underline : ℕ → ℕ
underline c = if is_forbidden c then b'_' else c

-- sanitize_pathname
unfoldable pub sanitize_pathname : List ℕ → List ℕ
sanitize_pathname s = map underline (map space_out s)

-- template_torrent_filename; `format_map` is str.format_map, `name` and `infohash` are what torf tells of
-- the torrent.
abbrev pub template_torrent_filename :
    (List ℕ → List (List ℕ × List ℕ) → Result (List ℕ)) → List ℕ → List ℕ → List ℕ → Result (List ℕ)
template_torrent_filename format_map fntemplate name infohash =
    format_map fntemplate ((codes "name", sanitize_pathname name) ∷ (codes "hash", infohash) ∷ [])

-- The characters from 32 on that are replaced by an underscore.
abbrev pub reserved : List ℕ
reserved = 0x5C ∷ b'"' ∷ codes "/<>:|?*"

-- What is left as it is: a character from 32 on that is not reserved and no white space but " ". DEL (0x7F)
-- is one, and so are the control characters from 0x80 to 0x9F but for 0x85.
abbrev pub IsNameCharacter : ℕ → Type 0
IsNameCharacter c = (32 ≤ c) × (elem c reserved ≡ false) × (is_space c ≡ (c == b' '))

underline-space_out : (c : ℕ) → IsNameCharacter (underline (space_out c))
underline-space_out c = (ground arith, ground arith, ground arith)

underline-space_out-same : (c : ℕ) → IsNameCharacter c → underline (space_out c) ≡ c
underline-space_out-same c (low, free, k) = ground (arith, low, free, k)

sanitize_pathname-All : (s : List ℕ) → All IsNameCharacter (sanitize_pathname s)
unfolding sanitize_pathname
sanitize_pathname-All [] = tt
sanitize_pathname-All (c ∷ s) = (underline-space_out c, sanitize_pathname-All s)

length-sanitize_pathname : (s : List ℕ) → length (sanitize_pathname s) ≡ length s
unfolding sanitize_pathname
length-sanitize_pathname [] = refl
length-sanitize_pathname (c ∷ s) = ap suc (length-sanitize_pathname s)

sanitize_pathname-same : (s : List ℕ) → All IsNameCharacter s → sanitize_pathname s ≡ s
unfolding sanitize_pathname
sanitize_pathname-same [] h = refl
sanitize_pathname-same (c ∷ s) (h, hs) =
    cc (underline-space_out-same c h, sanitize_pathname-same s hs)

sanitize_pathname-delete :
    (s t : List ℕ)
    → sanitize_pathname (s ++ 0x7F ∷ t) ≡ sanitize_pathname s ++ 0x7F ∷ sanitize_pathname t
unfolding sanitize_pathname
sanitize_pathname-delete [] t = refl
sanitize_pathname-delete (c ∷ s) t = cc (sanitize_pathname-delete s t)

-- A sanitized name has as many characters as the name, each of them at least 32, none of \ / < > : | " ? *,
-- and none white space but " "; a name is left as it is just if all its characters are of this kind, so
-- that to sanitize it again changes nothing; and a DEL (0x7F), though not printable, is left where it is.
pub sanitize_pathname_lem :
    (s t : List ℕ)
    → All IsNameCharacter (sanitize_pathname s)
      × (length (sanitize_pathname s) ≡ length s)
      × ((sanitize_pathname s ≡ s) ↔ All IsNameCharacter s)
      × (sanitize_pathname (sanitize_pathname s) ≡ sanitize_pathname s)
      × (sanitize_pathname (s ++ 0x7F ∷ t) ≡ sanitize_pathname s ++ 0x7F ∷ sanitize_pathname t)
sanitize_pathname_lem s t = (
  sanitize_pathname-All s,
  length-sanitize_pathname s,
  (λ e. subst (All IsNameCharacter) e (sanitize_pathname-All s), sanitize_pathname-same s),
  sanitize_pathname-same (sanitize_pathname s) (sanitize_pathname-All s),
  sanitize_pathname-delete s t,
)

-- ===== src/Text.antt =====
-- The functions of Go's `strings` and `strconv` that the source calls. A Go string is the list of
-- its code points, which is exact for valid UTF-8; a length in bytes is that of the encoding.
pub mod Number
pub mod Prefix
pub mod Splitting
pub mod Trimming
pub mod Words
use Prim.Native.Char.{code}
use Prim.Native.String.{String}
use disk_manager.Base.{
  ℕ, zero, suc, ◌+◌, ◌-◌, Bool, true, false, not, ◌&&◌, ◌||◌, Option, none, some, List, [], ◌∷◌,
  ◌++◌, ltb, leb, ◌==◌, if◌then◌else◌, is_empty, length, keep_if,
}

abbrev pub Text : Type 0
Text = List ℕ

-- The code points of a literal.
abbrev pub codes : String → Text
codes String.[] = []
codes (String.◌∷◌ c s) = code c ∷ codes s

-- `s == t`
unfoldable pub equals : Text → Text → Bool
equals [] [] = true
equals (a ∷ s) (b ∷ t) = a == b && equals s t
equals _ _ = false

-- `len(s)`, the number of bytes of the encoding
unfoldable pub byte_length : Text → ℕ
byte_length [] = 0
byte_length (c ∷ s) =
    (if ltb c 0x80 then 1 else if ltb c 0x800 then 2 else if ltb c 0x10000 then 3 else 4)
    + byte_length s

-- `strings.HasPrefix(s, prefix)`
unfoldable pub has_prefix : Text → Text → Bool
has_prefix s [] = true
has_prefix [] (p ∷ ps) = false
has_prefix (c ∷ s) (p ∷ ps) = c == p && has_prefix s ps

abbrev pub drop : ℕ → Text → Text
drop zero s = s
drop (suc n) [] = []
drop (suc n) (c ∷ s) = drop n s

-- `strings.TrimPrefix(s, prefix)`
unfoldable pub trim_prefix : Text → Text → Text
trim_prefix s p = if has_prefix s p then drop (length p) s else s

-- `strings.TrimSuffix(s, suffix)`
unfoldable pub trim_suffix : Text → Text → Text
trim_suffix [] p = []
trim_suffix (c ∷ s) p = let rest = trim_suffix s p in if equals (c ∷ s) p then [] else c ∷ rest

-- `strings.Contains(s, substr)`
unfoldable pub contains : Text → Text → Bool
contains [] t = is_empty t
contains (c ∷ s) t = has_prefix (c ∷ s) t || contains s t

-- `unicode.IsSpace`
unfoldable pub is_space : ℕ → Bool
is_space c =
    leb 9 c && leb c 13
    || c == 0x20
    || c == 0x85
    || c == 0xA0
    || c == 0x1680
    || leb 0x2000 c && leb c 0x200A
    || c == 0x2028
    || c == 0x2029
    || c == 0x202F
    || c == 0x205F
    || c == 0x3000

unfoldable pub trim_left : Text → Text
trim_left [] = []
trim_left (c ∷ s) = let rest = trim_left s in if is_space c then rest else c ∷ s

unfoldable pub trim_right : Text → Text
trim_right [] = []
trim_right (c ∷ s) = let rest = trim_right s in if is_empty rest && is_space c then [] else c ∷ rest

-- `strings.TrimSpace`
unfoldable pub trim_space : Text → Text
trim_space s = trim_right (trim_left s)

-- `strings.ReplaceAll(s, c, "")` for one character
unfoldable pub remove_all : ℕ → Text → Text
remove_all c = keep_if (λ d. not (d == c))

-- Puts a character in front of the first part.
abbrev pub push : ℕ → List Text → List Text
push c [] = (c ∷ []) ∷ []
push c (p ∷ ps) = (c ∷ p) ∷ ps

-- The parts of a text between the occurrences of `sep`, where `k` more characters belong to an
-- occurrence that has begun.
unfoldable pub split_from : Text → ℕ → Text → List Text
split_from sep k [] = [] ∷ []
split_from sep (suc k) (c ∷ s) = split_from sep k s
split_from sep zero (c ∷ s) = elim (has_prefix (c ∷ s) sep) [
  | true ↦ [] ∷ split_from sep (length sep - 1) s
  | false ↦ push c (split_from sep zero s)
]

-- `strings.Split(s, sep)`, for a `sep` that is not empty
unfoldable pub split : Text → Text → List Text
split s sep = split_from sep zero s

-- `strings.SplitN(s, sep, 2)` for one character: the two parts, or `none` where there is but one.
unfoldable pub split_two : Text → ℕ → Option (Text × Text)
split_two [] sep = none
split_two (c ∷ s) sep =
    let rest = split_two s sep in
    if c == sep then some ([], s) else elim rest [ none ↦ none | some (a, b) ↦ some (c ∷ a, b) ]

abbrev begins_word : Text → Bool
begins_word [] = false
begins_word (c ∷ s) = not (is_space c)

-- `strings.Fields`
unfoldable pub fields : Text → List Text
fields [] = []
fields (c ∷ s) =
    let rest = fields s in
    if is_space c then rest else if begins_word s then push c rest else (c ∷ []) ∷ rest

abbrev pub Replacement : Type 0
Replacement = Text × Text

-- The first pair whose old text begins here: the length of the old text, and the new text.
abbrev pub match_old : List Replacement → Text → Option (ℕ × Text)
match_old [] s = none
match_old ((old, new) ∷ pairs) s =
    let rest = match_old pairs s in if has_prefix s old then some (length old, new) else rest

-- `strings.NewReplacer(...).Replace`, for old texts that are not empty: one pass, no text replaced
-- twice, earlier pairs first. `k` more characters belong to an old text that has been replaced.
unfoldable pub replace_from : List Replacement → ℕ → Text → Text
replace_from pairs k [] = []
replace_from pairs (suc k) (c ∷ s) = replace_from pairs k s
replace_from pairs zero (c ∷ s) = elim (match_old pairs (c ∷ s)) [
  | none ↦ c ∷ replace_from pairs zero s
  | some (n, new) ↦ new ++ replace_from pairs (n - 1) s
]

abbrev pub join_with : Text → List Text → Text
join_with sep [] = []
join_with sep (p ∷ []) = p
join_with sep (p ∷ q ∷ ps) = p ++ (sep ++ join_with sep (q ∷ ps))

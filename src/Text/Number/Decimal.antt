-- ===== src/Text/Number/Decimal.antt =====
-- What the texts that `strconv.ParseUint` accepts mean, written without its loop.
use disk_manager.Base.{
  ℕ, ◌^◌, ◌≡◌, refl, Bool, true, false, ◌&&◌, Bool-cases, inl, inr, [], ◌∷◌, arith, All, ltb, leb,
  if◌then◌else◌, is_empty, not,
}
use disk_manager.Text.{Text}
use disk_manager.Text.Number.{Parsed, parsed, syntax_error, range_error, parse_uint}
use disk_manager.Text.Number.Digits.{IsDigit, value_from, parse_uint-value, parse_digits-parsed}

abbrev pub all_digits : Text → Bool
all_digits [] = true
all_digits (c ∷ s) = leb b'0' c && leb c b'9' && all_digits s

-- The value in base ten of a text of digits, at least one, that is a uint64; and 0 for other texts.
abbrev pub decimal : Text → ℕ
decimal s =
    if not (is_empty s) && all_digits s && ltb (value_from s 0) (2 ^ 64) then value_from s 0 else 0

all_digits-IsDigit : (s : Text) → all_digits s ≡ true → All IsDigit s
all_digits-IsDigit [] h = tt
all_digits-IsDigit (c ∷ s) h = ((ground arith, ground arith), all_digits-IsDigit s (ground arith))

IsDigit-all_digits : (s : Text) → All IsDigit s → all_digits s ≡ true
IsDigit-all_digits [] h = refl
IsDigit-all_digits (c ∷ s) ((low, high), hs) = ground (arith, IsDigit-all_digits s hs)

abbrev pub number_or_zero : Parsed → ℕ
number_or_zero (parsed n) = n
number_or_zero syntax_error = 0
number_or_zero range_error = 0

-- A parsed text has the number that it writes.
accepted :
    (c : ℕ) (s : Text) (r : Parsed)
    → parse_uint (c ∷ s) ≡ r
    → (not (is_empty (c ∷ s)) && all_digits (c ∷ s) && ltb (value_from (c ∷ s) 0) (2 ^ 64)) ≡ false
    → number_or_zero r ≡ 0
unfolding parse_uint
accepted c s syntax_error h other = refl
accepted c s range_error h other = refl
accepted c s (parsed n) h other =
    let (digits, value, small) = parse_digits-parsed (c ∷ s) 0 n (omega arith) h in
    let all = IsDigit-all_digits (c ∷ s) digits in absurd (ground arith)

pub parse_uint-decimal : (s : Text) → number_or_zero (parse_uint s) ≡ decimal s
parse_uint-decimal [] = unfold parse_uint in refl
parse_uint-decimal (c ∷ s) =
    elim (Bool-cases (all_digits (c ∷ s) && ltb (value_from (c ∷ s) 0) (2 ^ 64))) [
      | inl good ↦
          ground
            (arith, parse_uint-value c s (all_digits-IsDigit (c ∷ s) (ground arith)) (ground arith))
      | inr bad ↦ ground (arith, accepted c s (parse_uint (c ∷ s)) refl (ground arith))
    ]

-- ===== src/Text/Number/Digits.antt =====
-- `strconv.ParseUint` on digits.
use disk_manager.Base.{
  ℕ, ◌+◌, ◌-◌, ◌*◌, ◌%◌, ◌/◌, ◌^◌, ◌≤◌, ◌<◌, ◌≡◌, refl, false, ◌||◌, Bool-cases, inl, inr, [], ◌∷◌,
  arith, All, ltb, leb,
}
use disk_manager.Text.{Text, is_space}
use disk_manager.Text.Trimming.{Solid}
use disk_manager.Text.Number.{parsed, max_uint64, parse_digits, parse_uint}

abbrev pub IsDigit : ℕ → Type 0
IsDigit c = (b'0' ≤ c) × (c ≤ b'9')

-- The number that digits write in base ten, behind a number.
abbrev pub value_from : Text → ℕ → ℕ
value_from [] n = n
value_from (c ∷ s) n = value_from s (n * 10 + (c - b'0'))

value_from-grows : (s : Text) (n : ℕ) → n ≤ value_from s n
value_from-grows [] n = omega arith
value_from-grows (c ∷ s) n = omega (arith, value_from-grows s (n * 10 + (c - b'0')))

parse_digits-value :
    (s : Text) (n : ℕ)
    → All IsDigit s
    → value_from s n < 2 ^ 64
    → parse_digits s n ≡ parsed (value_from s n)
unfolding parse_digits
parse_digits-value [] n h fits = refl
parse_digits-value (c ∷ s) n ((low, high), hs) fits =
    let grows = value_from-grows s (n * 10 + (c - b'0')) in
    let same : (n * 10 + (c - b'0')) % 2 ^ 64 ≡ n * 10 + (c - b'0') = omega (arith, grows) in
    let digit : (ltb c b'0' || ltb b'9' c) ≡ false = ground arith in
    let small : leb (max_uint64 / 10 + 1) n ≡ false = ground (arith, grows) in
    let exact : ltb (n * 10 + (c - b'0')) (n * 10) ≡ false = ground arith in
    rw (digit, small, same, exact) (parse_digits-value s (n * 10 + (c - b'0')) hs fits)

-- A text of digits, at least one, whose value is a uint64 parses to the value.
pub parse_uint-value :
    (c : ℕ) (s : Text)
    → All IsDigit (c ∷ s)
    → value_from (c ∷ s) 0 < 2 ^ 64
    → parse_uint (c ∷ s) ≡ parsed (value_from (c ∷ s) 0)
unfolding parse_uint
parse_uint-value c s h fits = parse_digits-value (c ∷ s) 0 h fits

pub digits-Solid : (s : Text) → All IsDigit s → Solid s
digits-Solid [] h = tt
digits-Solid (c ∷ s) ((low, high), hs) = (unfold is_space in ground arith, digits-Solid s hs)

-- What is parsed without an error are digits, of a value that fits.
pub parse_digits-parsed :
    (s : Text) (n m : ℕ)
    → n < 2 ^ 64
    → parse_digits s n ≡ parsed m
    → All IsDigit s × (value_from s n ≡ m) × (m < 2 ^ 64)
unfolding parse_digits
parse_digits-parsed [] n m small h = let same : n ≡ m = cc in (tt, same, omega arith)
parse_digits-parsed (c ∷ s) n m small h = elim (Bool-cases (ltb c b'0' || ltb b'9' c)) [
  | inl other ↦ absurd (ground arith)
  | inr digit ↦ elim (Bool-cases (leb (max_uint64 / 10 + 1) n)) [
    | inl large ↦ absurd (ground arith)
    | inr fits ↦ elim (Bool-cases (ltb ((n * 10 + (c - b'0')) % 2 ^ 64) (n * 10))) [
      | inl wraps ↦ absurd (ground arith)
      | inr exact ↦
          let same : (n * 10 + (c - b'0')) % 2 ^ 64 ≡ n * 10 + (c - b'0') = ground arith in
          let rest : parse_digits s (n * 10 + (c - b'0')) ≡ parsed m = rw (← same) (ground arith) in
          let (digits, value, bound) =
            parse_digits-parsed s (n * 10 + (c - b'0')) m (omega (arith, same)) rest in
          ((ground arith, digits), value, bound)
    ]
  ]
]

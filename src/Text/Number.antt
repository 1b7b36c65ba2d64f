-- ===== src/Text/Number.antt =====
-- `strconv.ParseUint(s, 10, 64)` and `strconv.Atoi` of Go, on a 64-bit machine.
pub mod Decimal
pub mod Digits
use disk_manager.Base.{
  ℕ, ◌+◌, ◌-◌, ◌*◌, ◌/◌, ◌%◌, ◌^◌, Bool, true, false, ◌||◌, [], ◌∷◌, ltb, leb, ◌==◌, if◌then◌else◌,
  ℤ, pos, negsuc,
}
use disk_manager.Text.{Text}

-- A number, or the kind of the error.
pub data Parsed : Type 0 where
  parsed : ℕ → Parsed
  syntax_error range_error : Parsed

abbrev pub max_uint64 : ℕ
max_uint64 = 2 ^ 64 - 1

-- The loop: `n` is the value so far. `n * 10 + d` is computed in uint64, and an overflow of it shows
-- in the sum being smaller than `n * 10`.
unfoldable pub parse_digits : Text → ℕ → Parsed
parse_digits [] n = parsed n
parse_digits (c ∷ s) n =
    let d = c - b'0' in
    let n10 = n * 10 in
    let n1 = (n10 + d) % 2 ^ 64 in
    if ltb c b'0' || ltb b'9' c
    then syntax_error
    else if leb (max_uint64 / 10 + 1) n
    then range_error
    else if ltb n1 n10
    then range_error
    else parse_digits s n1

-- `strconv.ParseUint(s, 10, 64)`
unfoldable pub parse_uint : Text → Parsed
parse_uint [] = syntax_error
parse_uint (c ∷ s) = parse_digits (c ∷ s) 0

-- An `int`, with the error's presence. On an error `Atoi` still returns a value: 0 for bad syntax,
-- the nearest `int` for a number out of range.
abbrev signed : Bool → Parsed → ℤ × Bool
signed negative syntax_error = (pos 0, true)
signed false range_error = (pos (2 ^ 63 - 1), true)
signed true range_error = (negsuc (2 ^ 63 - 1), true)
signed false (parsed n) = if leb (2 ^ 63) n then (pos (2 ^ 63 - 1), true) else (pos n, false)
signed true (parsed n) =
    if ltb (2 ^ 63) n
    then (negsuc (2 ^ 63 - 1), true)
    else if n == 0
    then (pos 0, false)
    else (negsuc (n - 1), false)

-- `strconv.Atoi`
unfoldable pub atoi : Text → ℤ × Bool
atoi [] = (pos 0, true)
atoi (c ∷ s) =
    if c == b'-'
    then signed true (parse_uint s)
    else if c == b'+'
    then signed false (parse_uint s)
    else signed false (parse_uint (c ∷ s))

-- ===== src/Tests/Decide.antt =====
-- Statements about concrete texts, from tests that compute.
use disk_manager.Base.{
  ℕ, ◌≡◌, ◌≢◌, Bool, true, false, not, ◌&&◌, [], ◌∷◌, arith, ◌==◌, leb, Option, none, some, All,
}
use disk_manager.Text.{Text, is_space, equals}
use disk_manager.Text.Prefix.{Lacks, equals_iff}
use disk_manager.Text.Trimming.{Solid}
use disk_manager.Text.Number.Digits.{IsDigit}

abbrev pub no_space : Text → Bool
no_space [] = true
no_space (c ∷ s) = not (is_space c) && no_space s

pub solid : (s : Text) → no_space s ≡ true → Solid s
solid [] h = tt
solid (c ∷ s) h = (ground arith, solid s (ground arith))

abbrev pub no_char : ℕ → Text → Bool
no_char b [] = true
no_char b (c ∷ s) = not (c == b) && no_char b s

pub lacks : (b : ℕ) (s : Text) → no_char b s ≡ true → Lacks b s
lacks b [] h = tt
lacks b (c ∷ s) h = (ground arith, lacks b s (ground arith))

abbrev pub only_digits : Text → Bool
only_digits [] = true
only_digits (c ∷ s) = leb b'0' c && leb c b'9' && only_digits s

pub digits : (s : Text) → only_digits s ≡ true → All IsDigit s
digits [] h = tt
digits (c ∷ s) h = ((ground arith, ground arith), digits s (ground arith))

pub differ : (s t : Text) → equals s t ≡ false → s ≢ t
differ s t h e = ground (arith, (equals_iff s t).1 e)

-- The value of a result, where there is one.
abbrev pub value_or {ℓ} : {A : Type ℓ} → A → Option A → A
value_or a none = a
value_or a (some b) = b

-- ===== src/Text/Trimming.antt =====
-- `strings.TrimSpace`, `strings.ReplaceAll` and `strings.TrimSuffix`.
use disk_manager.Base.{ℕ, ◌≡◌, refl, ap, true, false, [], ◌∷◌, ◌++◌, arith, All, is_empty}
use disk_manager.Text.{Text, is_space, trim_left, trim_right, trim_space, remove_all}
use disk_manager.Text.Prefix.{Lacks}

-- Every character is a space.
abbrev pub Blank : Text → Type 0
Blank = All (λ c. is_space c ≡ true)

-- No character is a space.
abbrev pub Solid : Text → Type 0
Solid = All (λ c. is_space c ≡ false)

trim_right-Blank : (b : Text) → Blank b → trim_right b ≡ []
unfolding trim_right
trim_right-Blank [] _ = refl
trim_right-Blank (c ∷ b) (hc, hb) = ground (arith, trim_right-Blank b hb)

is_empty-concat : (s : Text) (c : ℕ) → is_empty (s ++ c ∷ []) ≡ false
is_empty-concat [] c = refl
is_empty-concat (d ∷ s) c = refl

trim_right-append :
    (s b : Text) (c : ℕ) → is_space c ≡ false → Blank b → trim_right (s ++ c ∷ b) ≡ s ++ c ∷ []
unfolding trim_right
trim_right-append [] b c hc hb = ground (arith, trim_right-Blank b hb)
trim_right-append (d ∷ s) b c hc hb = rw (trim_right-append s b c hc hb, is_empty-concat s c)

-- Spaces at the ends go, and nothing between two characters that are no spaces.
pub trim_space-between :
    (c d : ℕ) (s b : Text)
    → is_space c ≡ false
    → is_space d ≡ false
    → Blank b
    → trim_space (c ∷ s ++ d ∷ b) ≡ c ∷ s ++ d ∷ []
unfolding trim_space trim_left trim_right
trim_space-between c d s b hc hd hb = ground (arith, trim_right-append (c ∷ s) b d hd hb)

trim_right-Solid : (s b : Text) → Solid s → Blank b → trim_right (s ++ b) ≡ s
unfolding trim_right
trim_right-Solid [] b _ hb = trim_right-Blank b hb
trim_right-Solid (c ∷ s) b (hc, hs) hb = rw (trim_right-Solid s b hs hb) (ground arith)

trim_left-Blank : (b : Text) → Blank b → trim_left b ≡ []
unfolding trim_left
trim_left-Blank [] _ = refl
trim_left-Blank (c ∷ b) (hc, hb) = ground (arith, trim_left-Blank b hb)

-- The same for a text of no space at all.
pub trim_space-Solid : (s b : Text) → Solid s → Blank b → trim_space (s ++ b) ≡ s
unfolding trim_space trim_left trim_right
trim_space-Solid [] b hs hb = rw (trim_left-Blank b hb)
trim_space-Solid (c ∷ s) b (hc, hs) hb = ground (arith, trim_right-Solid (c ∷ s) b (hc, hs) hb)

pub remove_all-Lacks : (b : ℕ) (s : Text) → Lacks b s → remove_all b s ≡ s
unfolding remove_all
remove_all-Lacks b [] _ = refl
remove_all-Lacks b (c ∷ s) (hc, hs) = ground (arith, remove_all-Lacks b s hs)

pub remove_all-append :
    (b : ℕ) (s t : Text) → remove_all b (s ++ t) ≡ remove_all b s ++ remove_all b t
unfolding remove_all
remove_all-append b [] t = refl
remove_all-append b (c ∷ s) t = ground (arith, remove_all-append b s t)

-- A text with no space lacks each space.
pub Solid-Lacks : (b : ℕ) (s : Text) → is_space b ≡ true → Solid s → Lacks b s
Solid-Lacks b [] hb _ = tt
Solid-Lacks b (c ∷ s) hb (hc, hs) = (λ e. cc (ap is_space e), Solid-Lacks b s hb hs)

-- ===== src/Text/Prefix.antt =====
-- Equality, prefixes and characters that a text lacks.
use disk_manager.Base.{
  ℕ, ◌≡◌, ◌≢◌, refl, ap, ◌↔◌, true, [], ◌∷◌, ◌++◌, arith, length, length-append, sym, All,
}
use disk_manager.Text.{Text, equals, has_prefix, drop, trim_prefix}

pub equals_iff : (s t : Text) → (equals s t ≡ true) ↔ (s ≡ t)
unfolding equals
equals_iff (a ∷ s) (b ∷ t) = ground (arith, equals_iff s t)
equals_iff _ _ = ground arith

pub equals_self : (s : Text) → equals s s ≡ true
equals_self s = (equals_iff s s).1 refl

pub equals_sym : (s t : Text) → equals s t ≡ equals t s
equals_sym s t = ground (arith, equals_iff s t, equals_iff t s)

pub has_prefix-append : (p r : Text) → has_prefix (p ++ r) p ≡ true
unfolding has_prefix
has_prefix-append [] r = refl
has_prefix-append (c ∷ p) r = ground (arith, has_prefix-append p r)

pub drop-append : (p r : Text) → drop (length p) (p ++ r) ≡ r
drop-append [] r = refl
drop-append (c ∷ p) r = drop-append p r

pub trim_prefix-append : (p r : Text) → trim_prefix (p ++ r) p ≡ r
unfolding trim_prefix
trim_prefix-append p r = ground (arith, has_prefix-append p r, drop-append p r)

-- The text has no such character.
abbrev pub Lacks : ℕ → Text → Type 0
Lacks b = All (λ c. c ≢ b)

pub append_cancel_left : (p s t : Text) → p ++ s ≡ p ++ t → s ≡ t
append_cancel_left [] s t e = e
append_cancel_left (c ∷ p) s t e = append_cancel_left p s t (ap (drop 1) e)

-- Texts that lack `b` are told apart from what follows the first `b`.
pub append_at_inj :
    (b : ℕ) (s t u v : Text) → Lacks b s → Lacks b t → s ++ b ∷ u ≡ t ++ b ∷ v → (s ≡ t) × (u ≡ v)
append_at_inj b [] [] u v hs ht e = (refl, ap (drop 1) e)
append_at_inj b [] (d ∷ t) u v hs ht e = ground arith
append_at_inj b (c ∷ s) [] u v hs ht e = ground arith
append_at_inj b (c ∷ s) (d ∷ t) u v (hc, hs) (hd, ht) e =
    ground (arith, append_at_inj b s t u v hs ht (ap (drop 1) e))

append_self-nil : (s t : Text) → length s ≡ length (t ++ s) → t ≡ []
append_self-nil s [] h = refl
append_self-nil s (c ∷ t) h = absurd (omega (arith, length-append t s))

pub append_cancel_right : (s t u : Text) → s ++ u ≡ t ++ u → s ≡ t
append_cancel_right [] t u e = sym (append_self-nil u t (ap length e))
append_cancel_right (c ∷ s) [] u e = append_self-nil u (c ∷ s) (ap length (sym e))
append_cancel_right (c ∷ s) (d ∷ t) u e = ground (arith, append_cancel_right s t u (ap (drop 1) e))

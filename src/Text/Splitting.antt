-- ===== src/Text/Splitting.antt =====
-- `strings.Split` and `strings.SplitN` on texts that are put together from parts.
use disk_manager.Base.{ℕ, zero, ◌≡◌, refl, ap, ◌∙◌, some, List, [], ◌∷◌, ◌++◌, arith, length, All}
use disk_manager.Text.{Text, has_prefix, split_from, split, split_two, join_with}
use disk_manager.Text.Prefix.{Lacks, has_prefix-append}

split_from-skip :
    (sep p rest : Text) → split_from sep (length p) (p ++ rest) ≡ split_from sep zero rest
unfolding split_from
split_from-skip sep [] rest = refl
split_from-skip sep (c ∷ p) rest = split_from-skip sep p rest

split_from-at :
    (h : ℕ) (t rest : Text)
    → split_from (h ∷ t) zero (h ∷ t ++ rest) ≡ [] ∷ split_from (h ∷ t) zero rest
unfolding split_from has_prefix
split_from-at h t rest = ground (arith, has_prefix-append t rest, split_from-skip (h ∷ t) t rest)

-- A text that lacks the separator's first character has one part.
pub split-Lacks : (h : ℕ) (t s : Text) → Lacks h s → split s (h ∷ t) ≡ s ∷ []
unfolding split split_from has_prefix
split-Lacks h t [] _ = refl
split-Lacks h t (c ∷ s) (hc, hs) = ground (arith, split-Lacks h t s hs)

pub split-append :
    (h : ℕ) (t s rest : Text)
    → Lacks h s
    → split (s ++ (h ∷ t ++ rest)) (h ∷ t) ≡ s ∷ split rest (h ∷ t)
unfolding split split_from has_prefix
split-append h t [] rest _ = split_from-at h t rest
split-append h t (c ∷ s) rest (hc, hs) = ground (arith, split-append h t s rest hs)

-- The same for one character.
pub split-join_with :
    (h : ℕ) (p : Text) (ps : List Text)
    → All (Lacks h) (p ∷ ps)
    → split (join_with (h ∷ []) (p ∷ ps)) (h ∷ []) ≡ p ∷ ps
split-join_with h p [] (hp, _) = split-Lacks h [] p hp
split-join_with h p (q ∷ ps) (hp, hs) =
    split-append h [] p (join_with (h ∷ []) (q ∷ ps)) hp ∙ ap (◌∷◌ p) (split-join_with h q ps hs)

pub split_two-append :
    (sep : ℕ) (k v : Text) → Lacks sep k → split_two (k ++ sep ∷ v) sep ≡ some (k, v)
unfolding split_two
split_two-append sep [] v _ = ground arith
split_two-append sep (c ∷ k) v (hc, hk) = ground (arith, split_two-append sep k v hk)

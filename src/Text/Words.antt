-- ===== src/Text/Words.antt =====
-- `strings.Fields` and the replacer on texts that are put together from parts.
use disk_manager.Base.{
  ℕ, zero, ◌≡◌, ◌≢◌, refl, ap, ◌∙◌, true, false, List, [], ◌∷◌, ◌++◌, arith, some, length,
}
use disk_manager.Text.{
  Text, is_space, fields, push, begins_word, Replacement, match_old, replace_from,
}
use disk_manager.Text.Trimming.{Solid}

-- A character of a word that goes on.
fields-push :
    (c d : ℕ) (s : Text)
    → is_space c ≡ false
    → is_space d ≡ false
    → fields (c ∷ d ∷ s) ≡ push c (fields (d ∷ s))
fields-push c d s hc hd = unfold fields in rw (hc, hd)

fields-last :
    (c : ℕ) (s : Text)
    → is_space c ≡ false
    → begins_word s ≡ false
    → fields (c ∷ s) ≡ (c ∷ []) ∷ fields s
fields-last c s hc hs = unfold fields in rw (hc, hs)

fields-space : (c : ℕ) (s : Text) → is_space c ≡ true → fields (c ∷ s) ≡ fields s
fields-space c s h = unfold fields in rw h

space : is_space b' ' ≡ true
unfolding is_space
space = refl

-- A word and a space in front of more text.
pub fields-cons : (w rest : Text) → Solid w → w ≢ [] → fields (w ++ b' ' ∷ rest) ≡ w ∷ fields rest
fields-cons [] rest hw ne = absurd (ne refl)
fields-cons (c ∷ []) rest (hc, _) ne =
    fields-last c (b' ' ∷ rest) hc (unfold is_space in refl)
    ∙ ap (◌∷◌ (c ∷ [])) (fields-space b' ' rest space)
fields-cons (c ∷ d ∷ w) rest (hc, hw) ne =
    fields-push c d (w ++ b' ' ∷ rest) hc hw.0 ∙ ap (push c) (fields-cons (d ∷ w) rest hw (cc))

-- The last word.
pub fields-Solid : (w : Text) → Solid w → w ≢ [] → fields w ≡ w ∷ []
fields-Solid [] hw ne = absurd (ne refl)
fields-Solid (c ∷ []) (hc, _) ne =
    fields-last c [] hc refl ∙ ap (◌∷◌ (c ∷ [])) (unfold fields in refl)
fields-Solid (c ∷ d ∷ w) (hc, hw) ne =
    fields-push c d w hc hw.0 ∙ ap (push c) (fields-Solid (d ∷ w) hw (cc))

replace_from-skip :
    (pairs : List Replacement) (p rest : Text)
    → replace_from pairs (length p) (p ++ rest) ≡ replace_from pairs zero rest
unfolding replace_from
replace_from-skip pairs [] rest = refl
replace_from-skip pairs (c ∷ p) rest = replace_from-skip pairs p rest

-- An old text that begins here is replaced, and the rest is read behind it.
pub replace_from-match :
    (pairs : List Replacement) (c : ℕ) (old new rest : Text)
    → match_old pairs (c ∷ old ++ rest) ≡ some (length (c ∷ old), new)
    → replace_from pairs zero (c ∷ old ++ rest) ≡ new ++ replace_from pairs zero rest
unfolding replace_from
replace_from-match pairs c old new rest h = ground (arith, replace_from-skip pairs old rest)

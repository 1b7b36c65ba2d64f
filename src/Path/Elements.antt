-- ===== src/Path/Elements.antt =====
-- What `filepath.Base` returns.
use disk_manager.Base.{
  ◌≡◌, refl, ◌⊎◌, inl, inr, none, some, [], ◌∷◌, arith, ◌==◌, is_empty, Bool-cases,
}
use disk_manager.Text.{Text, codes}
use disk_manager.Text.Prefix.{Lacks}
use disk_manager.Path.{base, after_slash, last_element, strip_slashes}

after_slash-Lacks :
    (s : Text)
    → ((after_slash s ≡ none) × Lacks b'/' s)
      ⊎ ((r : Text) × (after_slash s ≡ some r) × Lacks b'/' r)
unfolding after_slash
after_slash-Lacks [] = inl (refl, tt)
after_slash-Lacks (c ∷ s) = elim (after_slash-Lacks s) [
  | inl (e, l) ↦ elim (Bool-cases (c == b'/')) [
    | inl h ↦ inr (s, rw (e, h), l)
    | inr h ↦ inl (rw (e, h), (ground arith, l))
  ]
  | inr (r, e, l) ↦ inr (r, rw e, l)
]

last_element-Lacks : (s : Text) → Lacks b'/' (last_element s)
unfolding last_element
last_element-Lacks s = elim (after_slash-Lacks s) [
  | inl (e, l) ↦ rw (e, last_element) l
  | inr (r, e, l) ↦ rw (e, last_element) l
]

-- The last element of a path has no slash, or is the root.
pub base_cases : (p : Text) → (base p ≡ codes "/") ⊎ Lacks b'/' (base p)
base_cases [] = inr (unfold base in ground arith)
base_cases (c ∷ s) = elim (Bool-cases (is_empty (last_element (strip_slashes (c ∷ s))))) [
  | inl h ↦ inl (unfold base in rw h)
  | inr h ↦ inr (unfold base in rw h (last_element-Lacks (strip_slashes (c ∷ s))))
]

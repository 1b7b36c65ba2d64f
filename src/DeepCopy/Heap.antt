-- ===== src/DeepCopy/Heap.antt =====
-- Lists as memory: what is at an index, and a write there.
use disk_manager.Base.{
  ℕ, zero, suc, ◌≡◌, ◌≢◌, refl, ap, Option, none, some, List, [], ◌∷◌, ◌++◌, length,
}

module _ {ℓ} {A : Type ℓ} where
  unfoldable pub get_elem? : ℕ → List A → Option A
  get_elem? n [] = none
  get_elem? zero (x ∷ xs) = some x
  get_elem? (suc n) (x ∷ xs) = get_elem? n xs

  unfoldable pub set_elem : ℕ → A → List A → List A
  set_elem n a [] = []
  set_elem zero a (x ∷ xs) = a ∷ xs
  set_elem (suc n) a (x ∷ xs) = x ∷ set_elem n a xs

  pub get_elem?-append :
      (n : ℕ) (xs ys : List A) (a : A) → get_elem? n xs ≡ some a → get_elem? n (xs ++ ys) ≡ some a
  unfolding get_elem?
  get_elem?-append n [] ys a h = absurd (cc)
  get_elem?-append zero (x ∷ xs) ys a h = h
  get_elem?-append (suc n) (x ∷ xs) ys a h = get_elem?-append n xs ys a h

  pub get_elem?-last : (xs : List A) (a : A) → get_elem? (length xs) (xs ++ a ∷ []) ≡ some a
  unfolding get_elem?
  get_elem?-last [] a = refl
  get_elem?-last (x ∷ xs) a = get_elem?-last xs a

  pub get_elem?-length : (xs : List A) → get_elem? (length xs) xs ≡ none
  unfolding get_elem?
  get_elem?-length [] = refl
  get_elem?-length (x ∷ xs) = get_elem?-length xs

  pub get_elem?-set_elem :
      (m n : ℕ) (a b : A) (xs : List A)
      → m ≢ n
      → get_elem? m xs ≡ some b
      → get_elem? m (set_elem n a xs) ≡ some b
  unfolding get_elem? set_elem
  get_elem?-set_elem m n a b [] other h = absurd (cc)
  get_elem?-set_elem zero zero a b (x ∷ xs) other h = absurd (other refl)
  get_elem?-set_elem zero (suc n) a b (x ∷ xs) other h = h
  get_elem?-set_elem (suc m) zero a b (x ∷ xs) other h = h
  get_elem?-set_elem (suc m) (suc n) a b (x ∷ xs) other h =
      get_elem?-set_elem m n a b xs (λ same. other (ap suc same)) h

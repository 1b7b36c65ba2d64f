-- ===== src/Effects.antt =====
-- Stateful code: a run over a state returns, panics, or uses up the fuel of the model's loops.
use disk_manager.Base.{Option, none, some}

pub data Run (A : Type 0) : Type 0 where
  done : A → Run A
  panicked : Run A
  starved : Run A

abbrev pub M : Type 0 → Type 0 → Type 0
M S A = S → Run (A × S)

abbrev pub pure : {S A : Type 0} → A → M S A
pure a s = done (a, s)

abbrev pub panic : {S A : Type 0} → M S A
panic s = panicked

abbrev pub starve : {S A : Type 0} → M S A
starve s = starved

infixl 5 ◌>>=◌ ◌>>◌
abbrev pub ◌>>=◌ : {S A B : Type 0} → M S A → (A → M S B) → M S B
◌>>=◌ m f s = elim (m s) [ done (a, s') ↦ f a s' | panicked ↦ panicked | starved ↦ starved ]

abbrev pub ◌>>◌ : {S B : Type 0} → M S (Unit {0}) → M S B → M S B
◌>>◌ m k = m >>= λ _. k

-- A value read from the state; `none` is a panic.
abbrev pub reads : {S A : Type 0} → (S → Option A) → M S A
reads f s = elim (f s) [ none ↦ panicked | some a ↦ done (a, s) ]

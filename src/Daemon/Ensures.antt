-- ===== src/Daemon/Ensures.antt =====
-- Runs that keep an invariant of the state, with what holds of their results. A run that panics or
-- starves leaves no state behind.
use disk_manager.Base.{Bool, true, false, Option, none, some, if◌then◌else◌}
use disk_manager.Effects.{Run, done, panicked, starved, M, pure, ◌>>=◌, reads}

module _ {S : Type 0} (I : S → Type 0) where
  abbrev pub Ends : {A : Type 0} → (A → Type 0) → Run (A × S) → Type 0
  Ends P (done (a, s)) = I s × P a
  Ends P panicked = Unit
  Ends P starved = Unit

  abbrev pub Ensures : {A : Type 0} → (A → Type 0) → M S A → Type 0
  Ensures P m = (s : S) → I s → Ends P (m s)

  module _ {A B : Type 0} (P : A → Type 0) (Q : B → Type 0) where
    bind-Ends :
        (r : Run (A × S)) (f : A → M S B)
        → Ends P r
        → ((a : A) → P a → Ensures Q (f a))
        → Ends Q (elim r [ done (a, s) ↦ f a s | panicked ↦ panicked | starved ↦ starved ])
    bind-Ends (done (a, s)) f (i, p) k = k a p s i
    bind-Ends panicked f e k = tt
    bind-Ends starved f e k = tt

    pub bind-Ensures :
        (m : M S A) (f : A → M S B)
        → Ensures P m
        → ((a : A) → P a → Ensures Q (f a))
        → Ensures Q (m >>= f)
    bind-Ensures m f e k s i = bind-Ends (m s) f (e s i) k

  module _ {A : Type 0} (P : A → Type 0) where
    pub pure-Ensures : (a : A) → P a → Ensures P (pure a)
    pure-Ensures a p s i = (i, p)

    pub if-Ensures :
        (b : Bool) (m n : M S A) → Ensures P m → Ensures P n → Ensures P (if b then m else n)
    if-Ensures true m n hm hn = hm
    if-Ensures false m n hm hn = hn

    pub option-Ensures :
        {E : Type 0} (o : Option E) (m : M S A) (f : E → M S A)
        → Ensures P m
        → ((e : E) → Ensures P (f e))
        → Ensures P (elim o [ none ↦ m | some e ↦ f e ])
    option-Ensures none m f hm hf = hm
    option-Ensures (some e) m f hm hf = hf e

    pub reads-Ensures : (f : S → Option A) → ((a : A) → P a) → Ensures P (reads f)
    reads-Ensures f p s i = found (f s)
      where
        found : (o : Option A) → Ends P (elim o [ none ↦ panicked | some a ↦ done (a, s) ])
        found none = tt
        found (some a) = (i, p a)

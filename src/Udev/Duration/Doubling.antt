-- ===== src/Udev/Duration/Doubling.antt =====
-- The durations that the handlers double, from one nanosecond on, in int64.
use native.Mathlib.Nat.{pow-succ', pow-le-pow_right}
use disk_manager.Base.{
  ℕ, zero, suc, ◌+◌, ◌-◌, ◌*◌, ◌%◌, ◌^◌, ◌<◌, ◌≤◌, ◌≡◌, ◌⊎◌, ◌==◌, refl, sym, ap, subst, append-nil,
  true, false, ◌&&◌, List, [], ◌∷◌, ◌++◌, arith, ltb, if◌then◌else◌, inl, inr, Bool-cases,
}
use disk_manager.Host.{Host}
use disk_manager.Cluster.{Cluster}
use disk_manager.Effects.{done}
use disk_manager.World.{World}
use disk_manager.Udev.Duration.{double, exceeds_default, pause}

-- The duration of the n-th call, counted from 0.
abbrev pub nth_duration : ℕ → ℕ
nth_duration n = 2 ^ n % 2 ^ 64

pub double-nth_duration : (n : ℕ) → double (nth_duration n) ≡ nth_duration (suc n)
unfolding double
double-nth_duration n = omega (arith, pow-succ' 2 n)

-- The pause before the n-th call: none before the first one, and none once the duration has
-- overflowed.
abbrev pub nth_pause : ℕ → List ℕ
nth_pause n = if ltb 0 n && ltb n 63 then 2 ^ n ∷ [] else []

pow-small : (n : ℕ) → suc n < 63 → (2 ≤ 2 ^ suc n) × (2 ^ suc n < 2 ^ 63)
pow-small n h =
    let low : 2 ^ 1 ≤ 2 ^ suc n =
      pow-le-pow_right {n = 2} (omega arith) {i = 1} {j = suc n} (omega arith) in
    let high : 2 ^ suc n ≤ 2 ^ 62 =
      pow-le-pow_right {n = 2} (omega arith) {i = suc n} {j = 62} (omega arith) in
    (omega arith, omega arith)

pow-large : (n : ℕ) → 2 ^ (63 + n) ≡ 2 ^ 63 * 2 ^ n
pow-large zero = refl
pow-large (suc n) =
    let e : 2 ^ (63 + suc n) ≡ 2 ^ suc (63 + n) = ap (λ k. 2 ^ k) (omega arith) in
    omega (arith, pow-large n, pow-succ' 2 (63 + n), pow-succ' 2 n)

exceeds_default-large :
    (d : ℕ) → ((d % 2 ^ 64 ≡ 0) ⊎ (d % 2 ^ 64 ≡ 2 ^ 63)) → exceeds_default (d % 2 ^ 64) ≡ false
unfolding exceeds_default
exceeds_default-large d (inl e) = ground arith
exceeds_default-large d (inr e) = ground arith

overflown : (x : ℕ) → ((2 ^ 63 * x) % 2 ^ 64 ≡ 0) ⊎ ((2 ^ 63 * x) % 2 ^ 64 ≡ 2 ^ 63)
overflown x = elim (Bool-cases ((2 ^ 63 * x) % 2 ^ 64 == 0)) [
  | inl e ↦ inl (ground arith)
  | inr e ↦ inr (ground arith)
]

exceeds_default-late : (n : ℕ) → exceeds_default (nth_duration (63 + n)) ≡ false
exceeds_default-late n =
    rw (pow-large n) (exceeds_default-large (2 ^ 63 * 2 ^ n) (overflown (2 ^ n)))

exceeds_default-nth_duration : (n : ℕ) → exceeds_default (nth_duration n) ≡ (ltb 0 n && ltb n 63)
exceeds_default-nth_duration zero = unfold exceeds_default in refl
exceeds_default-nth_duration (suc n) = elim (Bool-cases (ltb (suc n) 63)) [
  | inl few ↦
      let (low, high) = pow-small n (ground arith) in
      let same : nth_duration (suc n) ≡ 2 ^ suc n = omega arith in
      unfold exceeds_default in ground arith
  | inr many ↦
      let split : suc n ≡ 63 + (suc n - 63) = ground arith in
      let late = exceeds_default-late (suc n - 63) in
      let none_left : exceeds_default (nth_duration (suc n)) ≡ false =
        subst (λ m. exceeds_default (nth_duration m) ≡ false) (sym split) late in
      ground arith
]

nth_duration-early : (n : ℕ) → (ltb 0 n && ltb n 63) ≡ true → nth_duration n ≡ 2 ^ n
nth_duration-early zero h = cc
nth_duration-early (suc n) h = let (low, high) = pow-small n (ground arith) in omega arith

module _ (H : Host) (C : Cluster) where
  -- The pause of the n-th call.
  pub pause-nth_duration :
      (n : ℕ) (w : World H C)
      → pause H C (nth_duration n) w ≡ done (tt, record w { slept = w.slept ++ nth_pause n })
  unfolding pause
  pause-nth_duration n w = elim (Bool-cases (ltb 0 n && ltb n 63)) [
    | inl early ↦ ground (arith, exceeds_default-nth_duration n, nth_duration-early n)
    | inr late ↦ ground (arith, exceeds_default-nth_duration n, append-nil w.slept)
  ]

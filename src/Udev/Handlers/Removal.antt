-- ===== src/Udev/Handlers/Removal.antt =====
-- `RemoveBlockDevice`: its retries and its pauses.
use disk_manager.Base.{
  ℕ, zero, suc, ◌+◌, ◌≡◌, refl, ap, ◌∙◌, true, false, List, ◌++◌, arith, append_assoc,
  if◌then◌else◌,
}
use disk_manager.Text.{Text}
use disk_manager.Host.{Host}
use disk_manager.Cluster.{Cluster}
use disk_manager.Effects.{done}
use disk_manager.World.{World, Toolkit}
use disk_manager.Api.{Time}
use disk_manager.Util.{get_block_device_name}
use disk_manager.Udev.Device.{UdevDevice, get_short_name}
use disk_manager.Udev.Duration.Doubling.{
  nth_duration, nth_pause, double-nth_duration, pause-nth_duration,
}
use disk_manager.Udev.Handlers.{Settings, is_failure, remove_block_device}

-- The pauses before the calls from the n-th one on, and after it `k` more.
abbrev pub pauses : ℕ → ℕ → List ℕ
pauses zero n = nth_pause n
pauses (suc k) n = nth_pause n ++ pauses k (suc n)

module _ (H : Host) (C : Cluster) (K : Toolkit) (now : ℕ → Time) (u : Settings)
    (device : UdevDevice) where
  abbrev pub name : Text
  name = get_block_device_name (get_short_name device) u.node_name

  abbrev pub deleted : C.State → C.State
  deleted c = (C.delete u.namespace name c).1

  -- The cluster after so many calls.
  abbrev pub deletions : ℕ → C.State → C.State
  deletions zero c = c
  deletions (suc k) c = deletions k (deleted c)

  -- The first `k` calls fail, and the next one succeeds or finds no object.
  abbrev pub FailsFirst : ℕ → C.State → Type 0
  FailsFirst zero c = is_failure (C.delete u.namespace name c).0 ≡ false
  FailsFirst (suc k) c =
      (is_failure (C.delete u.namespace name c).0 ≡ true) × FailsFirst k (deleted c)

  abbrev paused : ℕ → World H C → World H C
  paused n w = record w { slept = w.slept ++ nth_pause n }

  remove_once :
      (fuel n : ℕ) (w : World H C)
      → remove_block_device H C K now u (suc fuel) device (nth_duration n) w ≡ (
          if is_failure (C.delete u.namespace name w.cluster).0
          then remove_block_device H C K now u fuel device
              (nth_duration (suc n))
              (record w { cluster = deleted w.cluster; slept = w.slept ++ nth_pause n })
          else done (tt, record w { cluster = deleted w.cluster; slept = w.slept ++ nth_pause n }))
  unfolding remove_block_device
  remove_once fuel n w = ground (
    arith,
    pause-nth_duration H C n w,
    ap (λ d. remove_block_device H C K now u fuel device d) (double-nth_duration n),
  )

  removes_from :
      (k fuel n : ℕ) (w : World H C)
      → FailsFirst k w.cluster
      → remove_block_device H C K now u (suc (k + fuel)) device (nth_duration n) w
        ≡ done
            (tt, record w { cluster = deletions (suc k) w.cluster; slept = w.slept ++ pauses k n })
  removes_from zero fuel n w f =
      ap (λ m. remove_block_device H C K now u (suc m) device (nth_duration n) w) (omega arith)
      ∙ remove_once fuel n w
      ∙ rw f refl
  removes_from (suc k) fuel n w (f, fs) =
      ap (λ m. remove_block_device H C K now u (suc m) device (nth_duration n) w) (omega arith)
      ∙ remove_once (suc (k + fuel)) n w
      ∙ rw
          (
            f,
            removes_from k fuel (suc n)
                (record w { cluster = deleted w.cluster; slept = w.slept ++ nth_pause n }) fs,
            append_assoc w.slept (nth_pause n) (pauses k (suc n)),
          )
          refl

  -- If the first k deletions fail and the next one succeeds, or finds no object, the handler
  -- returns after k + 1 deletions, with any fuel above k. Before the n-th repetition it sleeps 2^n
  -- nanoseconds, and from the 63rd on it does not sleep.
  pub remove_block_device_ends :
      (k fuel : ℕ) (w : World H C)
      → FailsFirst k w.cluster
      → remove_block_device H C K now u (suc (k + fuel)) device 1 w
        ≡ done
            (tt, record w { cluster = deletions (suc k) w.cluster; slept = w.slept ++ pauses k 0 })
  remove_block_device_ends k fuel w f = removes_from k fuel 0 w f

-- ===== src/Udev/Monitor/Ends.antt =====
-- The loop of `monitor` over messages that change nothing.
use disk_manager.Base.{ℕ, ◌≡◌, refl, List, [], ◌∷◌, ◌++◌, length, arith, All}
use disk_manager.Host.{Host}
use disk_manager.Api.{Time}
use disk_manager.Cluster.{Cluster}
use disk_manager.World.{World, Toolkit}
use disk_manager.Udev.Handlers.{Settings}
use disk_manager.Udev.Handlers.Faults.{IsIgnored, action_handler-IsIgnored}
use disk_manager.Udev.Monitor.{Message, event, parse_error, context_done, monitor}

abbrev pub PassesOver : Message → Type 0
PassesOver (event e) = IsIgnored e
PassesOver (parse_error e) = Unit
PassesOver context_done = ⊥

module _ (H : Host) (C : Cluster) (K : Toolkit) (now : ℕ → ℕ → Time) (u : Settings) where
  -- Messages that are parse errors, or events of Longhorn's devices or of no disk and no partition,
  -- leave the loop where it was, at any fuel and in any number: the rest of the messages runs from
  -- the same world.
  pub monitor-PassesOver :
      (fuel : ℕ) (ignored rest : List Message) (w : World H C)
      → All PassesOver ignored
      → monitor H C K now u fuel (ignored ++ rest) w ≡ monitor H C K now u fuel rest w
  unfolding monitor
  monitor-PassesOver fuel [] rest w h = refl
  monitor-PassesOver fuel (event e ∷ ms) rest w (h, hs) = ground (
    arith,
    action_handler-IsIgnored H C K (now (length (ms ++ rest))) u fuel e w h,
    monitor-PassesOver fuel ms rest w hs,
  )
  monitor-PassesOver fuel (parse_error e ∷ ms) rest w (h, hs) = monitor-PassesOver fuel ms rest w hs
  monitor-PassesOver fuel (context_done ∷ ms) rest w (h, hs) = absurd h

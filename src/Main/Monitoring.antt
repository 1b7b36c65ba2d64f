-- ===== src/Main/Monitoring.antt =====
-- pkg/udev/uevent.go: `Udev`, as main.go makes it from the options, and its `Monitor`.
use disk_manager.Base.{ℕ, Bool, false, List}
use disk_manager.Host.{Host}
use disk_manager.Api.{Time}
use disk_manager.Cluster.{Cluster}
use disk_manager.Effects.{M, pure, ◌>>=◌}
use disk_manager.World.{World, Toolkit}
use disk_manager.Main.{Options}
use disk_manager.Udev.Handlers.{Settings}
use disk_manager.Udev.Monitor.{Message, monitor_once}

-- `started` is the state of `startOnce`. The controller that `Udev` holds has the node's disks and the
-- cluster, which are in the world.
pub record Udev : Type 0 where
  pub settings : Settings
  pub started : Bool

-- `NewUdev`
abbrev pub new_udev : Options → Udev
new_udev opt = record {
  settings = record { namespace = opt.namespace; node_name = opt.node_name };
  started = false;
}

module _ (H : Host) (C : Cluster) (K : Toolkit) (now : ℕ → ℕ → Time) where
  -- `Monitor`, with the state of `startOnce` after it
  unfoldable pub monitor_events : ℕ → List Message → Udev → M (World H C) Udev
  monitor_events fuel messages u = do
    once ← monitor_once H C K now u.settings fuel messages u.started
    pure (record u { started = once })

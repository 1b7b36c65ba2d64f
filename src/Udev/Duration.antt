-- ===== src/Udev/Duration.antt =====
-- Go's `time.Duration`, an int64 count of nanoseconds, as the bit pattern of that integer; and the
-- pauses of pkg/udev/uevent.go.
pub mod Doubling
use disk_manager.Base.{ℕ, ◌*◌, ◌%◌, ◌^◌, Bool, ◌&&◌, ltb, if◌then◌else◌}
use disk_manager.Host.{Host}
use disk_manager.Cluster.{Cluster}
use disk_manager.Effects.{M, pure}
use disk_manager.World.{World, sleep}

-- `defaultDuration`: one nanosecond
abbrev pub default_duration : ℕ
default_duration = 1

-- `2*duration`, with the wrap-around of int64
unfoldable pub double : ℕ → ℕ
double d = (2 * d) % 2 ^ 64

-- `duration > defaultDuration`, as signed integers
unfoldable pub exceeds_default : ℕ → Bool
exceeds_default d = ltb default_duration d && ltb d (2 ^ 63)

-- `if duration > defaultDuration { time.Sleep(duration) }`
unfoldable pub pause : (H : Host) (C : Cluster) → ℕ → M (World H C) (Unit {0})
pause H C d = if exceeds_default d then sleep d else pure tt

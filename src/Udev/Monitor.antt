-- ===== src/Udev/Monitor.antt =====
-- pkg/udev/uevent.go: `Monitor`, its loop, and `getOptionalMatcher`. What the `select` receives is
-- a list of messages, in the order of its choices.
pub mod Ends
use disk_manager.Base.{
  ℕ, Bool, true, false, Option, none, some, List, [], ◌∷◌, length, is_empty, if◌then◌else◌,
}
use disk_manager.Text.{Text}
use disk_manager.Host.{Host}
use disk_manager.Api.{Time}
use disk_manager.Cluster.{Cluster}
use disk_manager.Effects.{M, pure, ◌>>=◌, ◌>>◌}
use disk_manager.World.{World, Toolkit}
use disk_manager.Udev.Handlers.{Settings, UEvent, action_handler}

pub data Message : Type 0 where
  event : UEvent → Message
  parse_error : Text → Message
  context_done : Message

-- `getOptionalMatcher`: the outer result is its error. `unmarshal` is `json.Unmarshal` into the rules.
unfoldable pub get_optional_matcher :
    {Rules : Type 0} (H : Host)
    → (Text → Option Rules)
    → H.State
    → Option Text
    → Option (Option Rules)
get_optional_matcher H unmarshal s none = some none
get_optional_matcher H unmarshal s (some path) =
    if is_empty path then some none else elim (H.read_file s path) [
      | none ↦ none
      | some stream ↦ elim (unmarshal stream) [ none ↦ none | some rules ↦ some (some rules) ]
    ]

-- `now` is the time, by the number of the messages that are left, and the fuel that is left of the call.
module _ (H : Host) (C : Cluster) (K : Toolkit) (now : ℕ → ℕ → Time) (u : Settings) where
  -- The loop of `monitor`. It ends when the context is done: the result says whether that came.
  unfoldable pub monitor : ℕ → List Message → M (World H C) Bool
  monitor fuel [] = pure false
  monitor fuel (event e ∷ messages) = do
    action_handler H C K (now (length messages)) u fuel e
    monitor fuel messages
  monitor fuel (parse_error e ∷ messages) = monitor fuel messages
  monitor fuel (context_done ∷ messages) = pure true

  -- `Monitor`, with the flag of `startOnce` before and after.
  unfoldable pub monitor_once : ℕ → List Message → Bool → M (World H C) Bool
  monitor_once fuel messages true = pure true
  monitor_once fuel messages false = (monitor fuel messages) >>= λ ended. pure true

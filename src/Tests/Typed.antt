-- ===== src/Tests/Typed.antt =====
-- A handler of devices as a handler of lasso.
use disk_manager.Base.{◌≡◌, ◌⊎◌, Option, none, some, List, []}
use disk_manager.Text.{codes}
use disk_manager.Api.{BlockDevice}
use disk_manager.Effects.{pure, panic, panicked}
use disk_manager.Generated.Handlers.{
  Handler, Object, pointer, another, as_object, from_handler_to_handler,
}
use disk_manager.Generated.Handlers.Typed.{IsTyped, Sound, from_handler_to_handler-Sound}
use disk_manager.Tests.Controller.{parent}

-- It returns the device, and panics of nil.
abbrev returning : Handler BlockDevice (List BlockDevice)
returning key none = panic
returning key (some device) = pure (some device, none)

abbrev given : Object BlockDevice
given = pointer (some parent)

from_handler_to_handler-Sound_example :
    (IsTyped given
      → (o : Option BlockDevice) × ((given ≡ as_object o) ⊎ (given ≡ pointer o))
        × Sound
            (returning (codes "key") o [])
            (from_handler_to_handler returning (codes "key") given []))
    × (given ≡ another → from_handler_to_handler returning (codes "key") given [] ≡ panicked)
from_handler_to_handler-Sound_example =
    from_handler_to_handler-Sound returning (codes "key") given []

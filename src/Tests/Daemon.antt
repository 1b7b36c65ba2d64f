-- ===== src/Tests/Daemon.antt =====
-- A start of the daemon on the node of the tests, beside the resource of somebody else.
use disk_manager.Base.{◌≡◌, refl, ap, arith, ◌+◌, [], ◌∷◌, length}
use disk_manager.Base.{length-append, ◌∙◌}
use disk_manager.Text.{Text, codes}
use disk_manager.Api.{BlockDevice}
use disk_manager.World.{World}
use disk_manager.Daemon.Known.{IsForeign}
use disk_manager.Tests.Memory.{memory}
use disk_manager.Tests.Node.{node, everything}
use disk_manager.Tests.Controller.{world, parent, here}
use disk_manager.Main.Registered.{Distinct, short_names}
use disk_manager.Tests.Decide.{differ}
use disk_manager.Tests.Block.{scanned}
use disk_manager.Util.{get_block_device_name}

-- A resource that somebody else has made.
abbrev pub elsewhere : BlockDevice
elsewhere = record parent {
  object_meta = record parent.object_meta { name = codes "sda"; labels = [] };
}

pub elsewhere-IsForeign : IsForeign here elsewhere
unfolding get_block_device_name
elsewhere-IsForeign short clash =
    let long : length (codes "sda") ≡ length short + 7 =
      ap length clash ∙ length-append short (codes "-node-1") in
    omega arith

abbrev pub before : World node memory
before = world (elsewhere ∷ [])

pub scanned-Distinct : Distinct (short_names scanned)
unfolding everything
scanned-Distinct = ((differ (codes "sda1") (codes "sda") refl, tt), (tt, tt))

-- ===== src/Tests/Controller.antt =====
-- What the controllers do on the node of the tests and a cluster in memory.
use disk_manager.Base.{◌≡◌, true, false, Option, none, some, List, [], ◌∷◌, All, if◌then◌else◌}
use disk_manager.Text.{Text, codes, equals}
use disk_manager.Labels.{includes}
use disk_manager.Api.{BlockDevice, Condition, Node}
use disk_manager.Cluster.{ApiError}
use disk_manager.Effects.{done}
use disk_manager.World.{World, Toolkit}
use disk_manager.Devices.{get_new_block_devices, get_partition_block_devices, parent_block_device}
use disk_manager.Devices.Labelled.{
  children_of, devices_of, labels_of, get_new_block_devices-selected,
}
use disk_manager.Controller.Save.Desired.{name_of}
use disk_manager.Controller.Register.{Settings}
use disk_manager.Controller.Delete.{on_block_device_delete, on_node_delete}
use disk_manager.Controller.Delete.Effect.{
  Selects, on_block_device_delete-Selects, on_node_delete-Selects,
}
use disk_manager.Tests.Memory.{memory, memory-IsLawful}
use disk_manager.Tests.Node.{node, files}
use disk_manager.Tests.Block.{sda}

abbrev pub condition : Text → Text → Text → Condition
condition name status message = record {
  cond_type = name;
  status = status;
  last_update_time = [];
  last_transition_time = [];
  reason = [];
  message = message;
}

abbrev pub status_of : Text → List Condition → Text
status_of name [] = []
status_of name (c ∷ cs) =
    let rest = status_of name cs in if equals c.cond_type name then c.status else rest

abbrev pub message_of : Text → List Condition → Text
message_of name [] = []
message_of name (c ∷ cs) =
    let rest = message_of name cs in if equals c.cond_type name then c.message else rest

-- The newest condition of a name counts.
abbrev pub toolkit : Toolkit
toolkit = record {
  set_status_bool = λ now name b cs.
      condition name (if b then codes "True" else codes "False") (message_of name cs) ∷ cs;
  set_error = λ now name reason err cs. elim err [
    | none ↦ condition name (codes "True") [] ∷ cs
    | some e ↦ condition name (codes "False") e ∷ cs
  ];
  set_message = λ now name message cs. condition name (status_of name cs) message ∷ cs;
  is_supported_file_system = λ t. equals t (codes "ext4");
}

abbrev pub here : Text
here = codes "node-1"

abbrev pub ns : Text
ns = codes "longhorn-system"

abbrev pub parent : BlockDevice
parent = parent_block_device node sda here ns

abbrev pub devices : List BlockDevice
devices = get_new_block_devices node sda here ns

abbrev pub world : List BlockDevice → World node memory
world objects = record { host = files; cluster = objects; slept = [] }

abbrev controller : Settings
controller = record { namespace = ns; node_name = here; disks = sda ∷ [] }

on_block_device_delete-Selects_example :
    (failed : Option ApiError) × (w' : World node memory) × (on_block_device_delete node memory ns
        (some parent)
        (world devices)
      ≡ done (((elim failed [ none ↦ none | some e ↦ some parent ]), failed), w'))
    × Selects node memory memory-IsLawful ns
        (children_of (name_of parent))
        (world devices)
        failed
        w'
on_block_device_delete-Selects_example =
    on_block_device_delete-Selects node memory memory-IsLawful ns parent (world devices)

abbrev pub this_node : Node
this_node = record { object_meta = record parent.object_meta { name = here }; others = [] }

on_node_delete-Selects_example :
    (failed : Option ApiError) × (w' : World node memory) × (on_node_delete node memory ns
        (some this_node)
        (world devices)
      ≡ done (((elim failed [ none ↦ none | some e ↦ some this_node ]), failed), w'))
    × Selects node memory memory-IsLawful ns (devices_of here) (world devices) failed w'
on_node_delete-Selects_example =
    on_node_delete-Selects node memory memory-IsLawful ns this_node (world devices)

-- The device has another path than the one that was stored.
abbrev moved : BlockDevice
moved = record parent { spec = record parent.spec { dev_path = codes "/dev/sdz" } }

get_new_block_devices-selected_example :
    All (λ bd. includes (devices_of here) (labels_of bd) ≡ true) devices
    × All
        (λ bd. includes (children_of parent.object_meta.name) (labels_of bd) ≡ true)
        (get_partition_block_devices sda.partitions parent here)
    × (includes (children_of parent.object_meta.name) (labels_of parent) ≡ false)
get_new_block_devices-selected_example = get_new_block_devices-selected node sda here ns

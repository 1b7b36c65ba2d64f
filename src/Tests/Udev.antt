-- ===== src/Tests/Udev.antt =====
-- What the udev handlers and the start of the program do on the node of the tests.
use disk_manager.Base.{
  ℕ, ◌+◌, zero, suc, ◌≡◌, ◌↔◌, is_empty, if◌then◌else◌, inl, refl, true, false, ◌||◌, Option, none,
  some, List, [], ◌∷◌,
}
use disk_manager.Text.{Text, codes}
use disk_manager.Labels
use disk_manager.Api.{Time, BlockDevice, block_device_active}
use disk_manager.Cluster.{Cluster, ApiError}
use disk_manager.Effects.{done, panicked, starved}
use disk_manager.World.{World}
use disk_manager.Util.{get_block_device_name, is_longhorn_block_device}
use disk_manager.Block.Disk.{get_disk, get_disk_by_name}
use disk_manager.Controller.Register.{register_node_block_devices}
use disk_manager.Udev.Device.{UdevDevice, get_short_name, get_id_path, is_disk, is_partition}
use disk_manager.Udev.Device.Names.{event_names_resource}
use disk_manager.Udev.Handlers.{
  Action, UEvent, action_handler, update_block_device, remove_block_device, is_failure,
}
use disk_manager.Udev.Handlers
use disk_manager.Controller.Register.Refines.{DistinctNames}
use disk_manager.Udev.Handlers.Removal.{remove_block_device_ends}
use disk_manager.Udev.Handlers.Faults.{
  Refuses, event_name, action_handler_panics, update_block_device_starves,
}
use disk_manager.Udev.Monitor.{context_done, monitor}
use disk_manager.Main.{
  Options, Given, options_from, Libraries, Formatter, simple_format, json_format, default_level,
  fatal, main_action, settings,
}
use disk_manager.Main.Start.{Works, main_action-fatal}
use disk_manager.Tests.Decide.{lacks, differ}
use disk_manager.Tests.Memory.{memory, strict}
use disk_manager.Tests.Node.{node, files, everything}
use disk_manager.Tests.Block.{sda, scanned}
use disk_manager.Tests.Controller.{toolkit, world, parent, devices, here, ns}

abbrev pub env : UdevDevice
env =
    (codes "DEVNAME", codes "/dev/sda")
    ∷ (codes "ID_TYPE", codes "disk")
    ∷ (codes "ID_PATH", codes "pci-1")
    ∷ []

abbrev clock : ℕ → Time
clock left = 7 + left

abbrev pub udev : Handlers.Settings
udev = record { namespace = ns; node_name = here }

event_names_resource_example :
    (get_block_device_name (get_short_name env) here ≡ parent.object_meta.name)
    × (get_disk_by_name node files parent.spec.dev_path ≡ get_disk node files sda.name)
unfolding everything
event_names_resource_example =
    event_names_resource node files env sda here ns (lacks b'/' (codes "sda") refl) refl

abbrev last_of : BlockDevice → List BlockDevice → BlockDevice
last_of d [] = d
last_of d (x ∷ xs) = last_of x xs

-- A cluster whose deletions fail as often as its state says.
abbrev busy : ApiError
busy = record { not_found = false; conflict = true; message = codes "busy" }

abbrev delete_later : ℕ → Option ApiError × ℕ
delete_later zero = (none, 0)
delete_later (suc k) = (some busy, k)

abbrev flaky : Cluster
flaky = record {
  State = ℕ;
  create = λ bd s. (record { value = bd; error = some busy }, s);
  update = λ bd s. (record { value = bd; error = some busy }, s);
  update_status = λ bd s. (record { value = bd; error = some busy }, s);
  delete = λ ns n s. delete_later s;
  list = λ ns s. (record { value = []; error = some busy }, s);
  cache_get = λ ns n s. (
    record {
      value = some (record parent { status = record parent.status { state = [] } });
      error = none;
    },
    s,
  );
  cache_list = λ ns set s. (record { value = []; error = some busy }, s);
}

abbrev flaky_world : World node flaky
flaky_world = record { host = files; cluster = 2; slept = [] }

remove_block_device_ends_example :
    remove_block_device node flaky toolkit clock udev 5 env 1 flaky_world
    ≡ done (tt, record flaky_world { cluster = 0; slept = 2 ∷ 4 ∷ [] })
remove_block_device_ends_example =
    remove_block_device_ends node flaky toolkit clock udev env 2 2 flaky_world (refl, (refl, refl))

abbrev online : UEvent
online = record { action = Action.online; env = env }

env_foreign : is_longhorn_block_device (get_id_path env) ≡ false
unfolding everything
env_foreign = refl

env_disk : (is_disk env || is_partition env) ≡ true
unfolding everything
env_disk = refl

pub sda_by_event : get_disk_by_name node files (get_short_name env) ≡ some sda
unfolding everything
sda_by_event = refl

action_handler_panics_example :
    action_handler node memory toolkit clock udev 1 online (world []) ≡ panicked
action_handler_panics_example =
    action_handler_panics node memory toolkit clock udev 0 online (world []) sda (inl refl)
      env_foreign env_disk sda_by_event refl

flaky-Refuses :
    Refuses node flaky toolkit clock udev block_device_active
      (event_name node flaky toolkit clock udev env)
      sda
unfolding everything
flaky-Refuses = record {
  cached = λ left c. (record parent { status = record parent.status { state = [] } }, refl, refl);
  refused = λ bd c h. cc;
}

update_block_device_starves_example :
    update_block_device node flaky toolkit clock udev 9 env 1 Action.online flaky_world ≡ starved
update_block_device_starves_example =
    update_block_device_starves node flaky toolkit clock udev 9 1 env Action.online
      block_device_active sda flaky_world refl sda_by_event flaky-Refuses

abbrev pub longhorn_event : UEvent
longhorn_event = record {
  action = Action.add;
  env = (codes "ID_PATH", codes "ip-10.0.0.1:3260-iscsi-iqn.2019-10.io.longhorn:vol-lun-1") ∷ [];
}

test_monitor :
    monitor node memory toolkit (λ left. clock) udev 3 (context_done ∷ []) (world devices)
    ≡ done (true, world devices)
unfolding everything
test_monitor = refl

abbrev pub libraries : Libraries
libraries = record {
  block_error = none;
  kube_config_error = λ path. none;
  factory_error = none;
  start_error = λ n. none;
}

abbrev given : Given
given = record {
  text = λ name. Labels.lookup name ((codes "node-name", here) ∷ []);
  number = λ name. none;
  flag = λ name. false;
}

no_namespace : given.text (codes "namespace") ≡ none
unfolding everything
no_namespace = refl

main_action-fatal_example :
    (address : Option Text) × (format : Formatter) × (main_action node memory libraries
        (options_from given)
        (world [])
      ≡ done (
        (address, (format, default_level), fatal (codes "either node name or namespace is empty")),
        world [],
      ))
    × (address ≡ (elim (given.text (codes "profile-listen-address")) [
      | none ↦ some (codes "0.0.0.0:6060")
      | some a ↦ if is_empty a then none else some a
    ]))
    × ((format ≡ simple_format) ↔ (given.text (codes "log-format") ≡ some (codes "simple")))
    × ((format ≡ json_format) ↔ (given.text (codes "log-format") ≡ some (codes "json")))
main_action-fatal_example = main_action-fatal node memory libraries given (world []) no_namespace

abbrev pub options : Options
options = record {
  kube_config = [];
  namespace = ns;
  node_name = here;
  threadiness = 2;
  debug = false;
  trace = false;
  log_format = codes "text";
  profiler_address = [];
}

pub libraries-Works : Works node memory libraries options
libraries-Works = record { block = refl; kube_config = refl; factory = refl; start = refl }

abbrev pub devices_last : BlockDevice
devices_last = last_of parent devices

registered :
    register_node_block_devices node memory (settings options scanned) (world [])
    ≡ done (none, world (devices_last ∷ parent ∷ []))
unfolding everything
registered = refl

abbrev strict_world : World node strict
strict_world = record { host = files; cluster = parent ∷ []; slept = [] }

pub sda_distinct : DistinctNames devices
unfolding everything
sda_distinct = ((differ (codes "sda1-node-1") (codes "sda-node-1") refl, tt), (tt, tt))

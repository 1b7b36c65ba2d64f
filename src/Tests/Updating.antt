-- ===== src/Tests/Updating.antt =====
-- The handlers that the generated code wraps, over a list of devices whose updates fail when it is full.
use disk_manager.Base.{
  ◌≡◌, ◌≢◌, refl, ◌⊎◌, ◌↔◌, Bool, true, false, Option, none, some, List, [], ◌∷◌,
}
use disk_manager.Text.{Text, codes, equals}
use disk_manager.Api.{BlockDevice, BlockDeviceStatus, block_device_inactive}
use disk_manager.Cluster.{ApiError}
use disk_manager.Effects.{M, done}
use disk_manager.Generated.Filled.{block_devices}
use disk_manager.Generated.Handlers.{Result, update_deep_copy_on_change}
use disk_manager.Generated.Handlers.Typed.{update_deep_copy_on_change-error}
use disk_manager.Generated.Status.{StatusTools, StatusHandler, reported_status, sync}
use disk_manager.Generated.Status.Settles.{sent, Sends, sync-sent}
use disk_manager.Tests.Node.{everything}
use disk_manager.Tests.Controller.{parent}
use disk_manager.Tests.Generated.{no_list}

-- A handler that marks the device inactive and fails, and a client whose updates fail on a full list.
abbrev failed : ApiError
failed = record { not_found = false; conflict = true; message = codes "late" }

abbrev tools : StatusTools
tools = record {
  set_error =
      λ condition reason err st. elim err [ none ↦ st | some e ↦ record st { state = e.message } ];
  last_updated = λ condition now st. st;
  semantic_equal = λ a b. equals a.state b.state;
}

abbrev marked : BlockDeviceStatus
marked = record parent.status { state = block_device_inactive }

abbrev marking : Option ApiError → StatusHandler (List BlockDevice)
marking err obj st s = done ((obj, (marked, err)), s)

abbrev send : BlockDevice → M (List BlockDevice) (Result BlockDevice)
send bd s = done ((bd, none), bd ∷ s)

abbrev refuse : BlockDevice → M (List BlockDevice) (Result BlockDevice)
refuse bd s = done ((bd, some failed), bd ∷ s)

abbrev refused : ApiError
refused = record { not_found = false; conflict = false; message = codes "refused" }

abbrev ready : Text
ready = codes "Ready"

abbrev result : Result BlockDeviceStatus
result = (marked, some refused)

abbrev reported : BlockDevice
reported =
    sent tools ready refuse (codes "now") (marking (some refused)) parent parent.status result

other_status :
    tools.semantic_equal parent.status (reported_status tools ready parent.status result) ≡ false
unfolding everything reported_status
other_status = refl

-- The handler fails, and the update too.
sync-sent_example :
    (o : Option BlockDevice) × (err : Option ApiError) × (sync tools ready refuse
        (codes "now")
        (marking (some refused))
        (codes "key")
        (some parent)
        []
      ≡ done ((o, err), reported ∷ []))
    × Sends tools ready refuse
        (codes "now")
        (marking (some refused))
        parent.status
        result
        reported.status
    × ((e : ApiError) → result.1 ≡ some e → err ≡ some e)
    × (result.1 ≡ none → err ≡ some failed)
    × (some failed ≡ none → o ≡ some reported)
sync-sent_example =
    sync-sent tools ready refuse (codes "now") (marking (some refused)) (codes "key") parent parent
      result (reported, some failed) [] [] (reported ∷ []) refl other_status refl

abbrev same_state : BlockDevice → BlockDevice → Bool
same_state a b = equals a.status.state b.status.state

-- The copy is changed in place; the result is nil and an error.
abbrev changing : BlockDevice → M (List BlockDevice) (BlockDevice × Result (Option BlockDevice))
changing bd s = done ((record bd { status = marked }, (none, some failed)), s)

abbrev changed_device : BlockDevice
changed_device = record parent { status = marked }

update_deep_copy_on_change-error_example :
    ((o : Option BlockDevice) × (s' : List BlockDevice) × (update_deep_copy_on_change
          (block_devices parent no_list)
          same_state
          send
          (some parent)
          changing
          []
        ≡ done ((o, some failed), s')))
    ↔ ((parent.object_meta.resource_version ≢ changed_device.object_meta.resource_version)
        ⊎ (same_state parent changed_device ≡ true))
update_deep_copy_on_change-error_example =
    update_deep_copy_on_change-error (block_devices parent no_list) same_state send changing parent
      changed_device none failed changed_device [] [] (changed_device ∷ []) refl refl

-- The update is made, and its answer is the call's.
test_changed :
    update_deep_copy_on_change
      (block_devices parent no_list)
      same_state
      send
      (some parent)
      changing
      []
    ≡ done ((some changed_device, none), changed_device ∷ [])
unfolding everything update_deep_copy_on_change
test_changed = refl

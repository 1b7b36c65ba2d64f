-- ===== src/Tests/Copies/Reading.antt =====
-- Deep copies over the memory that is a list of values.
use disk_manager.Base.{refl, some, List, [], ◌∷◌, ◌++◌}
use disk_manager.Text.{codes}
use disk_manager.Api.{BlockDevice, Condition}
use disk_manager.DeepCopy.{State, BlockDeviceCell, copy_block_device}
use disk_manager.DeepCopy.Heap.{get_elem?}
use disk_manager.DeepCopy.Reading.{DeviceReads}
use disk_manager.DeepCopy.Lists.{BlockDeviceList}
use disk_manager.DeepCopy.Separate.{
  Write, write_meta, write_conditions, write_time, write_all, copy_block_device-DeviceReads,
}
use disk_manager.Tests.Node.{everything}
use disk_manager.Controller.Change.{set_conditions, set_file_system}
use disk_manager.Tests.Controller.{parent}
use disk_manager.Tests.Copies.{library, library-IsSeparate, meta, time, text}

-- A device with a condition and a time of formatting.
abbrev ready : Condition
ready = record {
  cond_type = codes "Mounted";
  status = codes "True";
  last_update_time = [];
  last_transition_time = [];
  reason = [];
  message = [];
}

abbrev formatted : BlockDevice
formatted =
    set_file_system (set_conditions parent (ready ∷ []))
      (record parent.status.device_status.file_system { last_formatted_at = some 7 })

abbrev heap : State library
heap = record { arrays = (ready ∷ []) ∷ []; memory = meta parent.object_meta ∷ time 7 ∷ [] }

abbrev cell : BlockDeviceCell library
cell = record {
  type_meta = codes "BlockDevice";
  object_meta = 0;
  spec = formatted.spec;
  status = record {
    state = formatted.status.state;
    conditions = some 0;
    device_status = record {
      parent_device = formatted.status.device_status.parent_device;
      partitioned = formatted.status.device_status.partitioned;
      capacity = formatted.status.device_status.capacity;
      details = formatted.status.device_status.details;
      file_system = record {
        is_read_only = formatted.status.device_status.file_system.is_read_only;
        fs_type = formatted.status.device_status.file_system.fs_type;
        mount_point = formatted.status.device_status.file_system.mount_point;
        last_formatted_at = some 1;
      };
    };
  };
}

cell_reads : DeviceReads library library-IsSeparate cell heap formatted
unfolding everything get_elem? library-IsSeparate
cell_reads = record {
  object_meta = refl;
  spec = refl;
  status = record {
    state = refl;
    conditions = refl;
    device_status = record {
      parent_device = refl;
      partitioned = refl;
      capacity = refl;
      details = refl;
      file_system = record {
        is_read_only = refl;
        fs_type = refl;
        mount_point = refl;
        last_formatted_at = (7, refl, refl);
      };
    };
  };
}

-- Whatever the copy's conditions and time become, the device keeps its own.
abbrev writes : List (Write library library-IsSeparate)
writes =
    write_conditions [] ∷ write_time 9 ∷ write_meta (record parent.object_meta { labels = [] }) ∷ []

copy_block_device-DeviceReads_example :
    let (c', h') = copy_block_device library cell heap in
    DeviceReads library library-IsSeparate c' h' formatted
    × DeviceReads library library-IsSeparate cell
        (write_all library library-IsSeparate writes c' h')
        formatted
copy_block_device-DeviceReads_example =
    copy_block_device-DeviceReads library library-IsSeparate heap cell formatted cell_reads writes
      cell formatted cell_reads

abbrev listed : BlockDeviceList library
listed = record {
  type_meta = codes "BlockDeviceList";
  list_meta = 2;
  items = some (cell ∷ cell ∷ []);
}

abbrev list_heap : State library
list_heap = record heap { memory = heap.memory ++ text (codes "rv") ∷ [] }

-- ===== src/DeepCopy/Reading.antt =====
-- What the cells of DeepCopy.antt stand for, and what the copies of other modules promise.
use disk_manager.Base.{ℕ, ◌≡◌, Option, none, some, List, []}
use disk_manager.Api.{
  Time, FilesystemStatus, DeviceStatus, Condition, BlockDeviceStatus, BlockDevice,
}
use disk_manager.DeepCopy.{
  Copier, Library, State, FilesystemStatusCell, DeviceStatusCell, BlockDeviceStatusCell,
  BlockDeviceCell,
}
use disk_manager.DeepCopy.Heap.{get_elem?}

-- What the copies of another module promise. `New s r`: nothing that is read in `s` lies in the memory
-- of `r`.
pub record CopierLaws {S V : Type 0} (c : Copier S V) (Keeps : S → S → Type 0) : Type 1 where
  pub New : S → c.Ref → Type 0
  pub read-Keeps :
      (s t : S) (r : c.Ref) (v : V) → Keeps s t → c.read r s ≡ some v → c.read r t ≡ some v
  pub copy-Keeps : (r : c.Ref) (s : S) → Keeps s (c.copy r s).1
  pub copy-read :
      (r : c.Ref) (s : S) (v : V)
      → c.read r s ≡ some v
      → c.read (c.copy r s).0 (c.copy r s).1 ≡ some v
  pub copy-New : (q s : S) (r : c.Ref) → Keeps q s → New q (c.copy r s).0
  pub write-Keeps : (s t : S) (r : c.Ref) (v : V) → Keeps s t → New s r → Keeps s (c.write r v t)

pub record IsSeparate (L : Library) : Type 1 where
  -- What is read in the first memory is read in the second.
  pub Keeps : L.Memory → L.Memory → Type 0
  pub Keeps-self : (m : L.Memory) → Keeps m m
  pub Keeps-trans : (m n o : L.Memory) → Keeps m n → Keeps n o → Keeps m o
  pub object_meta : CopierLaws L.object_meta Keeps
  pub time : CopierLaws L.time Keeps
  pub list_meta : CopierLaws L.list_meta Keeps
  pub node_spec : CopierLaws L.node_spec Keeps
  pub node_status : CopierLaws L.node_status Keeps

module _ (L : Library) (S : IsSeparate L) where
  pub record KeepsState (h h' : State L) : Type 0 where
    pub arrays :
        (a : ℕ) (cs : List Condition)
        → get_elem? a h.arrays ≡ some cs
        → get_elem? a h'.arrays ≡ some cs
    pub memory : S.Keeps h.memory h'.memory

  pub KeepsState-self : (h : State L) → KeepsState h h
  KeepsState-self h = record { arrays = λ a cs e. e; memory = S.Keeps-self h.memory }

  pub KeepsState-trans : (h i j : State L) → KeepsState h i → KeepsState i j → KeepsState h j
  KeepsState-trans h i j k l = record {
    arrays = λ a cs e. l.arrays a cs (k.arrays a cs e);
    memory = S.Keeps-trans h.memory i.memory j.memory k.memory l.memory;
  }

  -- Readings of cells: the value that a cell stands for.
  abbrev pub TimeReads : Option L.time.Ref → State L → Option Time → Type 0
  TimeReads none h v = v ≡ none
  TimeReads (some t) h v = (x : Time) × (v ≡ some x) × (L.time.read t h.memory ≡ some x)

  abbrev pub ConditionsRead : Option ℕ → State L → List Condition → Type 0
  ConditionsRead none h v = v ≡ []
  ConditionsRead (some a) h v = get_elem? a h.arrays ≡ some v

  pub record FilesystemReads (c : FilesystemStatusCell L) (h : State L) (v : FilesystemStatus)
      : Type 0 where
    pub is_read_only : c.is_read_only ≡ v.is_read_only
    pub fs_type : c.fs_type ≡ v.fs_type
    pub mount_point : c.mount_point ≡ v.mount_point
    pub last_formatted_at : TimeReads c.last_formatted_at h v.last_formatted_at

  pub record DeviceStatusReads (c : DeviceStatusCell L) (h : State L) (v : DeviceStatus)
      : Type 0 where
    pub parent_device : c.parent_device ≡ v.parent_device
    pub partitioned : c.partitioned ≡ v.partitioned
    pub capacity : c.capacity ≡ v.capacity
    pub details : c.details ≡ v.details
    pub file_system : FilesystemReads c.file_system h v.file_system

  pub record StatusReads (c : BlockDeviceStatusCell L) (h : State L) (v : BlockDeviceStatus)
      : Type 0 where
    pub state : c.state ≡ v.state
    pub conditions : ConditionsRead c.conditions h v.conditions
    pub device_status : DeviceStatusReads c.device_status h v.device_status

  pub record DeviceReads (c : BlockDeviceCell L) (h : State L) (v : BlockDevice) : Type 0 where
    pub object_meta : L.object_meta.read c.object_meta h.memory ≡ some v.object_meta
    pub spec : c.spec ≡ v.spec
    pub status : StatusReads c.status h v.status

  module _ (h i : State L) (k : KeepsState h i) where
    pub TimeReads-Keeps :
        (t : Option L.time.Ref) (v : Option Time) → TimeReads t h v → TimeReads t i v
    TimeReads-Keeps none v r = r
    TimeReads-Keeps (some t) v (x, e, r) =
        (x, e, S.time.read-Keeps h.memory i.memory t x k.memory r)

    pub ConditionsRead-Keeps :
        (a : Option ℕ) (v : List Condition) → ConditionsRead a h v → ConditionsRead a i v
    ConditionsRead-Keeps none v r = r
    ConditionsRead-Keeps (some a) v r = k.arrays a v r

    pub FilesystemReads-Keeps :
        (c : FilesystemStatusCell L) (v : FilesystemStatus)
        → FilesystemReads c h v
        → FilesystemReads c i v
    FilesystemReads-Keeps c v r = record {
      is_read_only = r.is_read_only;
      fs_type = r.fs_type;
      mount_point = r.mount_point;
      last_formatted_at =
          TimeReads-Keeps c.last_formatted_at v.last_formatted_at r.last_formatted_at;
    }

    pub DeviceStatusReads-Keeps :
        (c : DeviceStatusCell L) (v : DeviceStatus)
        → DeviceStatusReads c h v
        → DeviceStatusReads c i v
    DeviceStatusReads-Keeps c v r = record {
      parent_device = r.parent_device;
      partitioned = r.partitioned;
      capacity = r.capacity;
      details = r.details;
      file_system = FilesystemReads-Keeps c.file_system v.file_system r.file_system;
    }

    pub StatusReads-Keeps :
        (c : BlockDeviceStatusCell L) (v : BlockDeviceStatus)
        → StatusReads c h v
        → StatusReads c i v
    StatusReads-Keeps c v r = record {
      state = r.state;
      conditions = ConditionsRead-Keeps c.conditions v.conditions r.conditions;
      device_status = DeviceStatusReads-Keeps c.device_status v.device_status r.device_status;
    }

    pub DeviceReads-Keeps :
        (c : BlockDeviceCell L) (v : BlockDevice) → DeviceReads c h v → DeviceReads c i v
    DeviceReads-Keeps c v r = record {
      object_meta =
          S.object_meta.read-Keeps h.memory i.memory c.object_meta v.object_meta k.memory
            r.object_meta;
      spec = r.spec;
      status = StatusReads-Keeps c.status v.status r.status;
    }

-- ===== src/DeepCopy.antt =====
-- pkg/apis/longhorn.io/v1beta1/zz_generated_deepcopy.go, and the lists of
-- zz_generated_list_types.go: copies of structs that share memory through a slice or a pointer. A
-- struct is a value here; the array of a slice of conditions is in the heap, by its address; what the
-- structs of other modules point to is in the memory of those modules. `none` is nil.
pub mod Copied
pub mod Heap
pub mod Items
pub mod Lists
pub mod Pointers
pub mod Reading
pub mod Separate
pub mod Apart
use disk_manager.Base.{ℕ, ◌+◌, Bool, Option, none, some, List, [], ◌∷◌, ◌++◌, length}
use disk_manager.Text.{Text}
use disk_manager.Api.{
  Time, ObjectMeta, FilesystemInfo, FilesystemStatus, BlockDeviceSpec, DeviceCapacity,
  DeviceDetails, DeviceStatus, Condition, BlockDeviceStatus, BlockDevice,
}
use disk_manager.DeepCopy.Heap.{get_elem?, set_elem}

-- A struct or a pointer of another module, with its value, and its copy: `DeepCopyInto` or `DeepCopy`.
pub record Copier (S V : Type 0) : Type 1 where
  pub Ref : Type 0
  pub read : Ref → S → Option V
  pub write : Ref → V → S → S
  pub copy : Ref → S → Ref × S

-- `metav1.ObjectMeta`, `metav1.ListMeta` and `*metav1.Time` of apimachinery; `NodeSpec` and `NodeStatus`
-- of longhorn-manager.
pub record Library : Type 1 where
  pub Memory : Type 0
  pub ListMeta : Type 0
  pub NodeSpec : Type 0
  pub NodeStatus : Type 0
  pub object_meta : Copier Memory ObjectMeta
  pub time : Copier Memory Time
  pub list_meta : Copier Memory ListMeta
  pub node_spec : Copier Memory NodeSpec
  pub node_status : Copier Memory NodeStatus

-- `DeepCopy` of a type whose `DeepCopyInto` is given: a nil pointer stays nil.
unfoldable pub deep_copy : {A S : Type 0} → (A → S → A × S) → Option A → S → Option A × S
deep_copy copy_into none h = (none, h)
deep_copy copy_into (some a) h = let (b, h') = copy_into a h in (some b, h')

module _ (L : Library) where
  pub record State : Type 0 where
    pub arrays : List (List Condition)
    pub memory : L.Memory

  -- `make([]Condition, len(*in))` and the copy into it: a new array, behind the others.
  unfoldable pub new_array : List Condition → State → ℕ × State
  new_array cs h = (length h.arrays, record h { arrays = h.arrays ++ cs ∷ [] })

  -- A call of another module.
  unfoldable pub outside : {A : Type 0} → (L.Memory → A × L.Memory) → State → A × State
  outside f h = let (a, m) = f h.memory in (a, record h { memory = m })

  pub record FilesystemStatusCell : Type 0 where
    pub is_read_only : Bool
    pub fs_type : Text
    pub mount_point : Text
    pub last_formatted_at : Option L.time.Ref

  pub record DeviceStatusCell : Type 0 where
    pub parent_device : Text
    pub partitioned : Bool
    pub capacity : DeviceCapacity
    pub details : DeviceDetails
    pub file_system : FilesystemStatusCell

  pub record BlockDeviceStatusCell : Type 0 where
    pub state : Text
    pub conditions : Option ℕ
    pub device_status : DeviceStatusCell

  pub record BlockDeviceCell : Type 0 where
    pub type_meta : Text
    pub object_meta : L.object_meta.Ref
    pub spec : BlockDeviceSpec
    pub status : BlockDeviceStatusCell

  pub record NodeCell : Type 0 where
    pub type_meta : Text
    pub object_meta : L.object_meta.Ref
    pub spec : L.node_spec.Ref
    pub status : L.node_status.Ref

  -- The structs without a slice or a pointer: `*out = *in`.
  unfoldable pub copy_block_device_spec : BlockDeviceSpec → State → BlockDeviceSpec × State
  copy_block_device_spec spec h = (record spec { file_system = spec.file_system }, h)

  unfoldable pub copy_condition : Condition → State → Condition × State
  copy_condition c h = (c, h)

  unfoldable pub copy_device_capacity : DeviceCapacity → State → DeviceCapacity × State
  copy_device_capacity c h = (c, h)

  unfoldable pub copy_device_details : DeviceDetails → State → DeviceDetails × State
  copy_device_details d h = (d, h)

  unfoldable pub copy_filesystem_info : FilesystemInfo → State → FilesystemInfo × State
  copy_filesystem_info f h = (f, h)

  -- `DeepCopyInto` of `FilesystemStatus`
  unfoldable pub copy_filesystem_status :
      FilesystemStatusCell → State → FilesystemStatusCell × State
  copy_filesystem_status fs h = elim fs.last_formatted_at [
    | none ↦ (fs, h)
    | some t ↦
        let (t', h') = outside (L.time.copy t) h in (record fs { last_formatted_at = some t' }, h')
  ]

  -- `DeepCopyInto` of `DeviceStatus`
  unfoldable pub copy_device_status : DeviceStatusCell → State → DeviceStatusCell × State
  copy_device_status d h =
      let (fs, h') = copy_filesystem_status d.file_system h in
      (record d { capacity = d.capacity; details = d.details; file_system = fs }, h')

  -- The slice of conditions; `none` is a slice whose array the heap does not have.
  unfoldable pub copy_conditions : Option ℕ → State → Option ℕ × State
  copy_conditions none h = (none, h)
  copy_conditions (some a) h = elim (get_elem? a h.arrays) [
    | none ↦ (some a, h)
    | some cs ↦ let (b, h') = new_array cs h in (some b, h')
  ]

  -- `DeepCopyInto` of `BlockDeviceStatus`
  unfoldable pub copy_block_device_status :
      BlockDeviceStatusCell → State → BlockDeviceStatusCell × State
  copy_block_device_status st h =
      let (cs, h₁) = copy_conditions st.conditions h in
      let (d, h₂) = copy_device_status st.device_status h₁ in
      (record st { conditions = cs; device_status = d }, h₂)

  -- `DeepCopyInto` of `BlockDevice`
  unfoldable pub copy_block_device : BlockDeviceCell → State → BlockDeviceCell × State
  copy_block_device bd h =
      let (m, h₁) = outside (L.object_meta.copy bd.object_meta) h in
      let (st, h₂) = copy_block_device_status bd.status h₁ in
      (record bd { type_meta = bd.type_meta; object_meta = m; spec = bd.spec; status = st }, h₂)

  -- `DeepCopyInto` of `Node`
  unfoldable pub copy_node : NodeCell → State → NodeCell × State
  copy_node n h =
      let (m, h₁) = outside (L.object_meta.copy n.object_meta) h in
      let (spec, h₂) = outside (L.node_spec.copy n.spec) h₁ in
      let (st, h₃) = outside (L.node_status.copy n.status) h₂ in
      (record n { type_meta = n.type_meta; object_meta = m; spec = spec; status = st }, h₃)

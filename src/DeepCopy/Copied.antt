-- ===== src/DeepCopy/Copied.antt =====
-- A copy reads as its original and has new memory.
use disk_manager.Base.{
  ℕ, ◌≡◌, refl, sym, subst, Option, none, some, List, [], ◌∷◌, length, Option-cases, inl, inr,
}
use disk_manager.Api.{FilesystemStatus, Condition, BlockDeviceStatus, BlockDevice}
use disk_manager.DeepCopy.{
  Library, State, new_array, outside, FilesystemStatusCell, BlockDeviceStatusCell, BlockDeviceCell,
  copy_filesystem_status, copy_device_status, copy_conditions, copy_block_device_status,
  copy_block_device,
}
use disk_manager.DeepCopy.Heap.{get_elem?, get_elem?-append, get_elem?-last, get_elem?-length}
use disk_manager.DeepCopy.Reading.{
  IsSeparate, KeepsState, KeepsState-self, KeepsState-trans, TimeReads, ConditionsRead,
  FilesystemReads, DeviceStatusReads, StatusReads, DeviceReads, ConditionsRead-Keeps,
  DeviceStatusReads-Keeps, StatusReads-Keeps,
}

module _ (L : Library) (S : IsSeparate L) where
  pub outside-Keeps :
      {A : Type 0} (f : L.Memory → A × L.Memory) (h : State L)
      → S.Keeps h.memory (f h.memory).1
      → KeepsState L S h (outside L f h).1
  unfolding outside
  outside-Keeps f h k = record { arrays = λ a cs e. e; memory = k }

  new_array-Keeps : (cs : List Condition) (h : State L) → KeepsState L S h (new_array L cs h).1
  unfolding new_array
  new_array-Keeps cs h = record {
    arrays = λ a v e. get_elem?-append a h.arrays (cs ∷ []) v e;
    memory = S.Keeps-self h.memory;
  }

  -- The addresses of a cell that are new since `h`.
  abbrev pub NewTime : State L → Option L.time.Ref → Type 0
  NewTime h none = Unit
  NewTime h (some t) = S.time.New h.memory t

  abbrev pub NewConditions : State L → Option ℕ → Type 0
  NewConditions h none = Unit
  NewConditions h (some a) = get_elem? a h.arrays ≡ none

  abbrev pub last_formatted_at : BlockDeviceCell L → Option L.time.Ref
  last_formatted_at d = d.status.device_status.file_system.last_formatted_at

  abbrev pub New : State L → BlockDeviceCell L → Type 0
  New h d =
      S.object_meta.New h.memory d.object_meta
      × NewConditions h d.status.conditions
      × NewTime h (last_formatted_at d)

  -- In what follows a copy is made in `h`, and `g` is an earlier state.
  module _ (g h : State L) (k : KeepsState L S g h) where
    abbrev FilesystemCopied : FilesystemStatus → FilesystemStatusCell L × State L → Type 0
    FilesystemCopied v (c, h') =
        KeepsState L S h h' × FilesystemReads L S c h' v × NewTime g c.last_formatted_at

    copy_filesystem_status-FilesystemCopied :
        (c : FilesystemStatusCell L) (v : FilesystemStatus)
        → FilesystemReads L S c h v
        → FilesystemCopied v (copy_filesystem_status L c h)
    unfolding copy_filesystem_status outside
    copy_filesystem_status-FilesystemCopied c v r =
        by_pointer c.last_formatted_at refl r.last_formatted_at
      where
        by_pointer :
            (t : Option L.time.Ref)
            → c.last_formatted_at ≡ t
            → TimeReads L S t h v.last_formatted_at
            → FilesystemCopied v (elim t [
              | none ↦ (c, h)
              | some t ↦
                  let (t', h') = outside L (L.time.copy t) h in
                  (record c { last_formatted_at = some t' }, h')
            ])
        by_pointer none e i = (KeepsState-self L S h, r, subst (NewTime g) (sym e) tt)
        by_pointer (some t) e (x, now, i) = (
          outside-Keeps (L.time.copy t) h (S.time.copy-Keeps t h.memory),
          record {
            is_read_only = r.is_read_only;
            fs_type = r.fs_type;
            mount_point = r.mount_point;
            last_formatted_at = (x, now, S.time.copy-read t h.memory x i);
          },
          S.time.copy-New g.memory h.memory t k.memory,
        )

    abbrev ConditionsCopied : List Condition → Option ℕ × State L → Type 0
    ConditionsCopied v (a, h') = KeepsState L S h h' × ConditionsRead L S a h' v × NewConditions g a

    new_array-New : NewConditions g (some (length h.arrays))
    new_array-New = elim (Option-cases (get_elem? (length h.arrays) g.arrays)) [
      | inl new ↦ new
      | inr (cs, old) ↦
          let there : get_elem? (length h.arrays) h.arrays ≡ some cs =
            k.arrays (length h.arrays) cs old in
          let missing : get_elem? (length h.arrays) h.arrays ≡ none = get_elem?-length h.arrays in
          absurd (cc)
    ]

    copy_conditions-ConditionsCopied :
        (a : Option ℕ) (v : List Condition)
        → ConditionsRead L S a h v
        → ConditionsCopied v (copy_conditions L a h)
    unfolding copy_conditions new_array
    copy_conditions-ConditionsCopied none v r = (KeepsState-self L S h, r, tt)
    copy_conditions-ConditionsCopied (some a) v r =
        rw (r, copy_conditions) (new_array-Keeps v h, get_elem?-last h.arrays v, new_array-New)

  abbrev NewStatus : State L → BlockDeviceStatusCell L → Type 0
  NewStatus g c =
      NewConditions g c.conditions × NewTime g c.device_status.file_system.last_formatted_at

  abbrev StatusCopied :
      State L → State L → BlockDeviceStatus → BlockDeviceStatusCell L × State L → Type 0
  StatusCopied g h v (c, h') = KeepsState L S h h' × StatusReads L S c h' v × NewStatus g c

  copy_block_device_status-StatusCopied :
      (g h : State L) (k : KeepsState L S g h) (c : BlockDeviceStatusCell L) (v : BlockDeviceStatus)
      → StatusReads L S c h v
      → StatusCopied g h v (copy_block_device_status L c h)
  unfolding copy_block_device_status copy_device_status
  copy_block_device_status-StatusCopied g h k c v r =
      let (a, h₁) = copy_conditions L c.conditions h in
      let (k₁, cs, new_cs) =
        copy_conditions-ConditionsCopied g h k c.conditions v.conditions r.conditions in
      let old : DeviceStatusReads L S c.device_status h₁ v.device_status =
        DeviceStatusReads-Keeps L S h h₁ k₁ c.device_status v.device_status r.device_status in
      let (fs, h₂) = copy_filesystem_status L c.device_status.file_system h₁ in
      let (k₂, reads, new_time) =
        copy_filesystem_status-FilesystemCopied g h₁ (KeepsState-trans L S g h h₁ k k₁)
          c.device_status.file_system v.device_status.file_system old.file_system in
      (
        KeepsState-trans L S h h₁ h₂ k₁ k₂,
        record {
          state = r.state;
          conditions = ConditionsRead-Keeps L S h₁ h₂ k₂ a v.conditions cs;
          device_status = record {
            parent_device = old.parent_device;
            partitioned = old.partitioned;
            capacity = old.capacity;
            details = old.details;
            file_system = reads;
          };
        },
        (new_cs, new_time),
      )

  abbrev pub DeviceCopied : State L → State L → BlockDevice → BlockDeviceCell L × State L → Type 0
  DeviceCopied g h v (c, h') = KeepsState L S h h' × DeviceReads L S c h' v × New g c

  pub copy_block_device-DeviceCopied :
      (g h : State L) (k : KeepsState L S g h) (c : BlockDeviceCell L) (v : BlockDevice)
      → DeviceReads L S c h v
      → DeviceCopied g h v (copy_block_device L c h)
  unfolding copy_block_device outside
  copy_block_device-DeviceCopied g h k c v r =
      let (m, h₁) = outside L (L.object_meta.copy c.object_meta) h in
      let k₁ : KeepsState L S h h₁ =
        outside-Keeps (L.object_meta.copy c.object_meta) h
          (S.object_meta.copy-Keeps c.object_meta h.memory) in
      let (st, h₂) = copy_block_device_status L c.status h₁ in
      let (k₂, status, (new_cs, new_time)) =
        copy_block_device_status-StatusCopied g h₁ (KeepsState-trans L S g h h₁ k k₁) c.status
          v.status (StatusReads-Keeps L S h h₁ k₁ c.status v.status r.status) in
      (
        KeepsState-trans L S h h₁ h₂ k₁ k₂,
        record {
          object_meta =
              S.object_meta.read-Keeps h₁.memory h₂.memory m v.object_meta k₂.memory
                (S.object_meta.copy-read c.object_meta h.memory v.object_meta r.object_meta);
          spec = r.spec;
          status = status;
        },
        (S.object_meta.copy-New g.memory h.memory c.object_meta k.memory, new_cs, new_time),
      )

-- ===== src/DeepCopy/Separate.antt =====
-- What the copies are for: a copy reads as its original, and a write through it changes nothing that
-- could be read before.
use disk_manager.Base.{ℕ, ◌≡◌, subst, Option, none, some, List, [], ◌∷◌}
use disk_manager.Api.{Time, ObjectMeta, Condition, BlockDevice}
use disk_manager.DeepCopy.{Library, State, BlockDeviceCell, copy_block_device}
use disk_manager.DeepCopy.Heap.{get_elem?, set_elem, get_elem?-set_elem}
use disk_manager.DeepCopy.Reading.{
  IsSeparate, KeepsState, KeepsState-self, DeviceReads, DeviceReads-Keeps,
}
use disk_manager.DeepCopy.Copied.{
  New, NewConditions, NewTime, last_formatted_at, copy_block_device-DeviceCopied,
}

module _ (L : Library) (S : IsSeparate L) where
  -- A write through a device to memory that it may share: the labels and the rest of the metadata, the
  -- elements of the slice of conditions, the time of formatting.
  pub data Write : Type 0 where
    write_meta : ObjectMeta → Write
    write_conditions : List Condition → Write
    write_time : Time → Write

  abbrev write_through : Write → BlockDeviceCell L → State L → State L
  write_through (write_meta m) d h = record h {
    memory = L.object_meta.write d.object_meta m h.memory;
  }
  write_through (write_conditions cs) d h = elim d.status.conditions [
    | none ↦ h
    | some a ↦ record h { arrays = set_elem a cs h.arrays }
  ]
  write_through (write_time t) d h = elim (last_formatted_at L S d) [
    | none ↦ h
    | some r ↦ record h { memory = L.time.write r t h.memory }
  ]

  abbrev pub write_all : List Write → BlockDeviceCell L → State L → State L
  write_all [] d h = h
  write_all (w ∷ ws) d h = write_all ws d (write_through w d h)

  module _ (g : State L) (d : BlockDeviceCell L) (new : New L S g d) where
    write_through-Keeps :
        (w : Write) (h : State L) → KeepsState L S g h → KeepsState L S g (write_through w d h)
    write_through-Keeps (write_meta m) h k = record {
      arrays = k.arrays;
      memory = S.object_meta.write-Keeps g.memory h.memory d.object_meta m k.memory new.0;
    }
    write_through-Keeps (write_conditions cs) h k = by_slice d.status.conditions new.1
      where
        by_slice :
            (o : Option ℕ)
            → NewConditions L S g o
            → KeepsState L S g
                (elim o [ none ↦ h | some a ↦ record h { arrays = set_elem a cs h.arrays } ])
        by_slice none n = k
        by_slice (some a) n = record {
          arrays = λ b v e.
              get_elem?-set_elem b a cs v h.arrays
                (λ same.
                  let old : get_elem? a g.arrays ≡ some v =
                    subst (λ c. get_elem? c g.arrays ≡ some v) same e in
                  absurd (cc))
                (k.arrays b v e);
          memory = k.memory;
        }
    write_through-Keeps (write_time t) h k = by_pointer (last_formatted_at L S d) new.2
      where
        by_pointer :
            (o : Option L.time.Ref)
            → NewTime L S g o
            → KeepsState L S g
                (elim o [ none ↦ h | some r ↦ record h { memory = L.time.write r t h.memory } ])
        by_pointer none n = k
        by_pointer (some r) n = record {
          arrays = k.arrays;
          memory = S.time.write-Keeps g.memory h.memory r t k.memory n;
        }

    pub write_all-Keeps :
        (ws : List Write) (h : State L) → KeepsState L S g h → KeepsState L S g (write_all ws d h)
    write_all-Keeps [] h k = k
    write_all-Keeps (w ∷ ws) h k =
        write_all-Keeps ws (write_through w d h) (write_through-Keeps w h k)

  -- Where the copies of other modules keep their promises, and the device can be read: the copy
  -- reads as the device, and whatever is written through the copy afterwards, each device that
  -- could be read before the copy, the original among them, reads the same after it.
  pub copy_block_device-DeviceReads :
      (h : State L) (c : BlockDeviceCell L) (v : BlockDevice)
      → DeviceReads L S c h v
      → (ws : List Write) (e : BlockDeviceCell L) (u : BlockDevice) → DeviceReads L S e h u
      → let (c', h') = copy_block_device L c h in
        DeviceReads L S c' h' v × DeviceReads L S e (write_all ws c' h') u
  copy_block_device-DeviceReads h c v r ws e u s =
      let (c', h') = copy_block_device L c h in
      let (k, reads, new) = copy_block_device-DeviceCopied L S h h (KeepsState-self L S h) c v r in
      (reads, DeviceReads-Keeps L S h (write_all ws c' h') (write_all-Keeps h c' new ws h' k) e u s)

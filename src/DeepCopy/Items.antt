-- ===== src/DeepCopy/Items.antt =====
-- The copies of nodes and of lists read as their originals.
use disk_manager.Base.{◌≡◌, ◌≢◌, ◌↔◌, refl, Option, none, some, List, [], ◌∷◌}
use disk_manager.Api.{BlockDevice}
use disk_manager.DeepCopy.{Library, State, deep_copy, outside, BlockDeviceCell, copy_block_device}
use disk_manager.DeepCopy.Lists.{
  nothing, boxed, deep_copy_object, copy_items, BlockDeviceList, copy_block_device_list,
}
use disk_manager.DeepCopy.Reading.{
  IsSeparate, KeepsState, KeepsState-self, KeepsState-trans, DeviceReads, DeviceReads-Keeps,
}
use disk_manager.DeepCopy.Copied.{outside-Keeps, copy_block_device-DeviceCopied}

-- A nil pointer's copy is the nil interface, and no other's: an interface value never holds a nil
-- pointer.
pub deep_copy_object-nothing :
    {A T : Type 0} (copy_into : A → T → A × T) (o : Option A) (h : T)
    → ((deep_copy_object copy_into o h).0 ≡ nothing ↔ (o ≡ none))
      × ((deep_copy_object copy_into o h).0 ≢ boxed none)
unfolding deep_copy_object deep_copy
deep_copy_object-nothing copy_into none h = ((λ e. refl, λ e. refl), λ e. cc)
deep_copy_object-nothing copy_into (some a) h = ((λ e. cc, λ e. cc), λ e. cc)

module _ (L : Library) (S : IsSeparate L) where
  module _ {A V : Type 0} (Reads : A → State L → V → Type 0)
      (copy : A → State L → A × State L) where
    -- A copy changes no reading, and reads as its original.
    abbrev pub Copies : Type 0
    Copies =
        (h : State L) (a : A) (v : V)
        → Reads a h v
        → KeepsState L S h (copy a h).1 × Reads (copy a h).0 (copy a h).1 v

    abbrev pub Stays : Type 0
    Stays = (h i : State L) → KeepsState L S h i → (a : A) (v : V) → Reads a h v → Reads a i v

    abbrev pub ItemsRead : List A → State L → List V → Type 0
    ItemsRead [] h vs = vs ≡ []
    ItemsRead (a ∷ l) h vs =
        (v : V) × (rest : List V) × (vs ≡ v ∷ rest) × (Reads a h v × ItemsRead l h rest)

    module _ (stays : Stays) (copies : Copies) where
      pub ItemsRead-Keeps :
          (h i : State L)
          → KeepsState L S h i
          → (l : List A) (vs : List V) → ItemsRead l h vs
          → ItemsRead l i vs
      ItemsRead-Keeps h i k [] vs r = r
      ItemsRead-Keeps h i k (a ∷ l) vs (v, rest, e, (r, rs)) =
          (v, rest, e, (stays h i k a v r, ItemsRead-Keeps h i k l rest rs))

      pub copy_items-ItemsRead :
          (l : List A) (h : State L) (vs : List V)
          → ItemsRead l h vs
          → let (bs, h') = copy_items copy l h in KeepsState L S h h' × ItemsRead bs h' vs
      unfolding copy_items
      copy_items-ItemsRead [] h vs r = (KeepsState-self L S h, r)
      copy_items-ItemsRead (a ∷ l) h vs (v, rest, e, (r, rs)) =
          let (b, h₁) = copy a h in
          let (k₁, i) = copies h a v r in
          let (k₂, is) = copy_items-ItemsRead l h₁ rest (ItemsRead-Keeps h h₁ k₁ l rest rs) in
          let (bs, h₂) = copy_items copy l h₁ in
          (KeepsState-trans L S h h₁ h₂ k₁ k₂, (v, rest, e, (stays h₁ h₂ k₂ b v i, is)))

  pub copy_block_device-Copies : Copies (DeviceReads L S) (copy_block_device L)
  copy_block_device-Copies h c v r =
      let (k, reads, new) = copy_block_device-DeviceCopied L S h h (KeepsState-self L S h) c v r in
      (k, reads)

  -- A slice of devices; a nil slice reads as `none`.
  abbrev pub SliceReads :
      Option (List (BlockDeviceCell L)) → State L → Option (List BlockDevice) → Type 0
  SliceReads none h v = v ≡ none
  SliceReads (some items) h v =
      (vs : List BlockDevice) × (v ≡ some vs)
      × ItemsRead (DeviceReads L S) (copy_block_device L) items h vs

  pub record ListReads (l : BlockDeviceList L) (h : State L) (m : L.ListMeta)
      (v : Option (List BlockDevice)) : Type 0 where
    pub list_meta : L.list_meta.read l.list_meta h.memory ≡ some m
    pub items : SliceReads l.items h v

  -- Where the copies of other modules keep their promises, and the list can be read: the copy reads
  -- as the list: the same metadata, nil items just for nil items, and else the same devices in the
  -- same order; what could be read before the copy reads the same after it.
  pub copy_block_device_list-ListReads :
      (l : BlockDeviceList L) (h : State L) (m : L.ListMeta) (v : Option (List BlockDevice))
      → ListReads l h m v
      → let (l', h') = copy_block_device_list L l h in KeepsState L S h h' × ListReads l' h' m v
  unfolding copy_block_device_list outside
  copy_block_device_list-ListReads l h m v r = by_slice l.items r.items
    where
      h₁ : State L
      h₁ = (outside L (L.list_meta.copy l.list_meta) h).1

      m₁ : L.list_meta.Ref
      m₁ = (outside L (L.list_meta.copy l.list_meta) h).0

      k₁ : KeepsState L S h h₁
      k₁ =
          outside-Keeps L S (L.list_meta.copy l.list_meta) h
            (S.list_meta.copy-Keeps l.list_meta h.memory)

      copied_meta : L.list_meta.read m₁ h₁.memory ≡ some m
      copied_meta = S.list_meta.copy-read l.list_meta h.memory m r.list_meta

      by_slice :
          (o : Option (List (BlockDeviceCell L)))
          → SliceReads o h v
          → let p : BlockDeviceList L × State L = elim o [
            | none ↦ (record l { list_meta = m₁; items = none }, h₁)
            | some items ↦
                let (items', h₂) = copy_items (copy_block_device L) items h₁ in
                (record l { list_meta = m₁; items = some items' }, h₂)
          ] in
            KeepsState L S h p.1 × ListReads p.0 p.1 m v
      by_slice none e = (k₁, record { list_meta = copied_meta; items = e })
      by_slice (some items) (vs, e, is) =
          let (k₂, copied) =
            copy_items-ItemsRead (DeviceReads L S) (copy_block_device L) (DeviceReads-Keeps L S)
              copy_block_device-Copies items h₁ vs
              (ItemsRead-Keeps (DeviceReads L S) (copy_block_device L) (DeviceReads-Keeps L S)
                copy_block_device-Copies h h₁ k₁ items vs is) in
          let h₂ = (copy_items (copy_block_device L) items h₁).1 in
          (
            KeepsState-trans L S h h₁ h₂ k₁ k₂,
            record {
              list_meta = S.list_meta.read-Keeps h₁.memory h₂.memory m₁ m k₂.memory copied_meta;
              items = (vs, e, copied);
            },
          )

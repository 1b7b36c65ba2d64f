-- ===== src/DeepCopy/Lists.antt =====
-- The lists of zz_generated_list_types.go, and their copies and the interface values of
-- zz_generated_deepcopy.go.
use disk_manager.Base.{Option, none, some, List, [], ◌∷◌}
use disk_manager.Text.{Text}
use disk_manager.DeepCopy.{
  Library, State, deep_copy, outside, BlockDeviceCell, NodeCell, copy_block_device, copy_node,
}

-- An interface value: nil, or a pointer with its type, which may itself be nil.
pub data Boxed (A : Type 0) : Type 0 where
  nothing : Boxed A
  boxed : Option A → Boxed A

-- `DeepCopyObject`
unfoldable pub deep_copy_object : {A S : Type 0} → (A → S → A × S) → Option A → S → Boxed A × S
deep_copy_object copy_into o h =
    let (c, h') = deep_copy copy_into o h in
    (elim c [ none ↦ nothing | some a ↦ boxed (some a) ], h')

-- The loop over the items
unfoldable pub copy_items : {A S : Type 0} → (A → S → A × S) → List A → S → List A × S
copy_items copy_into [] h = ([], h)
copy_items copy_into (a ∷ l) h =
    let (b, h₁) = copy_into a h in let (bs, h₂) = copy_items copy_into l h₁ in (b ∷ bs, h₂)

module _ (L : Library) where
  pub record BlockDeviceList : Type 0 where
    pub type_meta : Text
    pub list_meta : L.list_meta.Ref
    pub items : Option (List (BlockDeviceCell L))

  pub record NodeList : Type 0 where
    pub type_meta : Text
    pub list_meta : L.list_meta.Ref
    pub items : Option (List (NodeCell L))

  -- `DeepCopyInto` of `BlockDeviceList`
  unfoldable pub copy_block_device_list : BlockDeviceList → State L → BlockDeviceList × State L
  copy_block_device_list l h =
      let (m, h₁) = outside L (L.list_meta.copy l.list_meta) h in
      elim l.items [
        | none ↦ (record l { list_meta = m; items = none }, h₁)
        | some items ↦
            let (items', h₂) = copy_items (copy_block_device L) items h₁ in
            (record l { list_meta = m; items = some items' }, h₂)
      ]

  -- `DeepCopyInto` of `NodeList`
  unfoldable pub copy_node_list : NodeList → State L → NodeList × State L
  copy_node_list l h =
      let (m, h₁) = outside L (L.list_meta.copy l.list_meta) h in
      elim l.items [
        | none ↦ (record l { list_meta = m; items = none }, h₁)
        | some items ↦
            let (items', h₂) = copy_items (copy_node L) items h₁ in
            (record l { list_meta = m; items = some items' }, h₂)
      ]

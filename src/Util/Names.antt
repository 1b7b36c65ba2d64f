-- ===== src/Util/Names.antt =====
-- When two devices have the same resource name.
use disk_manager.Base.{◌≡◌, ◌∷◌}
use disk_manager.Text.{Text}
use disk_manager.Text.Prefix.{Lacks, append_at_inj, append_cancel_right}
use disk_manager.Util.{get_block_device_name}

-- If neither of two device names has a dash, equal resource names come from the same device of the
-- same node, whatever the nodes' names.
pub get_block_device_name_inj :
    (device device' node node' : Text)
    → Lacks b'-' device
    → Lacks b'-' device'
    → get_block_device_name device node ≡ get_block_device_name device' node'
    → (device ≡ device') × (node ≡ node')
unfolding get_block_device_name
get_block_device_name_inj device device' node node' h h' e =
    append_at_inj b'-' device device' node node' h h' e

-- On one node the resource name determines the device, dashes or not.
pub get_block_device_name_inj_on_node :
    (device device' node : Text)
    → get_block_device_name device node ≡ get_block_device_name device' node
    → device ≡ device'
unfolding get_block_device_name
get_block_device_name_inj_on_node device device' node e =
    append_cancel_right device device' (b'-' ∷ node) e

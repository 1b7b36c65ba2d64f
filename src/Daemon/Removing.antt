-- ===== src/Daemon/Removing.antt =====
-- The handlers that only delete keep every object known.
use disk_manager.Base.{Option, none, some, List, [], ◌∷◌}
use disk_manager.Text.{Text}
use disk_manager.Labels.{Labels}
use disk_manager.Host.{Host}
use disk_manager.Api.{BlockDevice, Node}
use disk_manager.Cluster.{Cluster}
use disk_manager.World.{World, call}
use disk_manager.Effects.{pure}
use disk_manager.Controller.Delete.{
  delete_all, delete_selected, on_block_device_delete, on_node_delete,
}
use disk_manager.Controller.Save.Desired.{name_of}
use disk_manager.Devices.{parent_device_label, label_hostname}
use disk_manager.Daemon.Ensures.{Ensures, bind-Ensures, pure-Ensures, option-Ensures}
use disk_manager.Daemon.Shared.{Shared}
use disk_manager.Daemon.Calls.{Any, AllKnown, AllListed, delete-AllKnown, cache_list-AllKnown}

module _ (H : Host) (C : Cluster) (ns node : Text) (S : Shared H node ns C) where
  abbrev I : World H C → Type 0
  I = AllKnown H C ns node S

  delete_all-AllKnown : (bds : List BlockDevice) → Ensures I Any (delete_all H C ns bds)
  unfolding delete_all
  delete_all-AllKnown [] = λ w i. (i, tt)
  delete_all-AllKnown (bd ∷ bds) =
      bind-Ensures I Any Any (call (C.delete ns (name_of bd)))
        (λ failed. elim failed [ some e ↦ pure (some e) | none ↦ delete_all H C ns bds ])
        (delete-AllKnown H C ns node S (name_of bd))
        (λ failed h.
          option-Ensures I Any failed (delete_all H C ns bds) (λ e. pure (some e))
            (delete_all-AllKnown bds) (λ e. pure-Ensures I Any (some e) tt))

  delete_selected-AllKnown : (set : Labels) → Ensures I Any (delete_selected H C ns set)
  unfolding delete_selected
  delete_selected-AllKnown set =
      bind-Ensures I (λ r. AllListed H C ns node S r.value) Any (call (C.cache_list ns set))
        (λ reply. elim reply.error [
          | some e ↦ pure (some e)
          | none ↦ delete_all H C ns reply.value
        ])
        (cache_list-AllKnown H C ns node S set)
        (λ reply h.
          option-Ensures I Any reply.error (delete_all H C ns reply.value) (λ e. pure (some e))
            (delete_all-AllKnown reply.value) (λ e. pure-Ensures I Any (some e) tt))

  pub on_block_device_delete-AllKnown :
      (o : Option BlockDevice) → Ensures I Any (on_block_device_delete H C ns o)
  unfolding on_block_device_delete
  on_block_device_delete-AllKnown none = λ w i. (i, tt)
  on_block_device_delete-AllKnown (some device) =
      bind-Ensures I Any Any (delete_selected H C ns ((parent_device_label, name_of device) ∷ []))
        (λ failed. elim failed [ some e ↦ pure (some device, some e) | none ↦ pure (none, none) ])
        (delete_selected-AllKnown ((parent_device_label, name_of device) ∷ []))
        (λ failed h.
          option-Ensures I Any failed (pure (none, none)) (λ e. pure (some device, some e))
            (λ w i. (i, tt)) (λ e w i. (i, tt)))

  pub on_node_delete-AllKnown : (o : Option Node) → Ensures I Any (on_node_delete H C ns o)
  unfolding on_node_delete
  on_node_delete-AllKnown none = λ w i. (i, tt)
  on_node_delete-AllKnown (some node) =
      bind-Ensures I Any Any (delete_selected H C ns ((label_hostname, node.object_meta.name) ∷ []))
        (λ failed. elim failed [ some e ↦ pure (some node, some e) | none ↦ pure (none, none) ])
        (delete_selected-AllKnown ((label_hostname, node.object_meta.name) ∷ []))
        (λ failed h.
          option-Ensures I Any failed (pure (none, none)) (λ e. pure (some node, some e))
            (λ w i. (i, tt)) (λ e w i. (i, tt)))

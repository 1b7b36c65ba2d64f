-- ===== src/Daemon/Starting.antt =====
-- The start of the program keeps every object known.
use disk_manager.Base.{◌⊎◌, inl, inr, Option, none, some, List, [], ◌∷◌, ◌++◌, ◌||◌, is_empty}
use disk_manager.Text.{Text, codes}
use disk_manager.Host.{Host}
use disk_manager.Cluster.{Cluster, Reply}
use disk_manager.Effects.{pure, reads}
use disk_manager.World.{World}
use disk_manager.Block.Disk.{Disk, disks}
use disk_manager.Block.Info.{Info, new_info, load}
use disk_manager.Controller.Register.{
  Registration, on_change, on_remove, block_device_handler_name, register_node_block_devices,
  register,
}
use disk_manager.Main.{Options, Libraries, Outcome, returned, run, scan, connect, lead, settings}
use disk_manager.Daemon.Ensures.{Ensures, bind-Ensures, if-Ensures, option-Ensures, reads-Ensures}
use disk_manager.Daemon.Shared.{Shared}
use disk_manager.Daemon.Calls.{Any, AllKnown}
use disk_manager.Daemon.Saving.{register_node_block_devices-AllKnown}

module _ (H : Host) (C : Cluster) (B : Libraries) (opt : Options)
    (S : Shared H opt.node_name opt.namespace C) where
  abbrev J : World H C → Type 0
  J = AllKnown H C opt.namespace opt.node_name S

  register-AllKnown : (found : List Disk) → Ensures J Any (register H C (settings opt found))
  unfolding register
  register-AllKnown found =
      bind-Ensures J {B = Reply (List Registration)} Any Any
        (register_node_block_devices H C (settings opt found))
        (λ failed. elim failed [
          | some e ↦ pure (record { value = []; error = some e })
          | none ↦ pure (record {
            value = on_change block_device_handler_name ∷ on_remove block_device_handler_name ∷ [];
            error = none;
          })
        ])
        (register_node_block_devices-AllKnown H C opt.namespace opt.node_name S found)
        (λ failed h.
          option-Ensures J Any failed
            (pure (record {
              value =
                  on_change block_device_handler_name ∷ on_remove block_device_handler_name ∷ [];
              error = none;
            }))
            (λ e. pure (record { value = []; error = some e })) (λ w i. (i, tt)) (λ e w i. (i, tt)))

  lead-AllKnown : (found : List Disk) → Ensures J Any (lead H C B opt found)
  unfolding lead
  lead-AllKnown found =
      bind-Ensures J {B = Outcome} Any Any (register H C (settings opt found)) _
        (register-AllKnown found) (λ reply h w i. (i, tt))

  connect-AllKnown : (found : List Disk) → Ensures J Any (connect H C B opt found)
  unfolding connect
  connect-AllKnown found = by_errors (B.kube_config_error opt.kube_config) B.factory_error
    where
      by_errors :
          (a b : Option Text)
          → Ensures J Any (elim a [
            | some e ↦ pure (returned (codes "failed to find kubeconfig: " ++ e))
            | none ↦ elim b [
              | some e ↦
                  pure (returned (codes "error building node-disk-manager controllers: " ++ e))
              | none ↦ lead H C B opt found
            ]
          ])
      by_errors (some e) b = λ w i. (i, tt)
      by_errors none (some e) = λ w i. (i, tt)
      by_errors none none = lead-AllKnown found

  load-AllKnown : (info : Info) → Ensures J Any (load H C info)
  unfolding load
  load-AllKnown info =
      bind-Ensures J Any Any (reads (λ w. disks H w.host)) _
        (reads-Ensures J Any (λ w. disks H w.host) (λ found. tt)) (λ found h w i. (i, tt))

  new_info-AllKnown : (o : Option Text) → Ensures J Any (new_info H C o)
  unfolding new_info
  new_info-AllKnown (some e) = λ w i. (i, tt)
  new_info-AllKnown none =
      bind-Ensures J Any Any (load H C (record { disks = []; partitions = [] })) _
        (load-AllKnown (record { disks = []; partitions = [] })) (λ info h w i. (i, tt))

  scan-AllKnown : Ensures J Any (scan H C B opt)
  unfolding scan
  scan-AllKnown =
      bind-Ensures J {B = Outcome} Any Any (new_info H C B.block_error) _
        (new_info-AllKnown B.block_error) (λ made h. by_result made)
    where
      by_result :
          (made : Text ⊎ Info)
          → Ensures J {A = Outcome} Any
              (elim made [ inl e ↦ pure (returned e) | inr info ↦ connect H C B opt info.disks ])
      by_result (inl e) = λ w i. (i, tt)
      by_result (inr info) = connect-AllKnown info.disks

  pub run-AllKnown : Ensures J Any (run H C B opt)
  unfolding run
  run-AllKnown =
      if-Ensures J Any (is_empty opt.node_name || is_empty opt.namespace)
        (pure (returned (codes "either node name or namespace is empty"))) (scan H C B opt)
        (λ w i. (i, tt)) scan-AllKnown

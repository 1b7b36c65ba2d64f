-- ===== src/Main/Start.antt =====
-- `run`: what it returns without a namespace, and what a start amounts to.
use disk_manager.Base.{
  ◌≡◌, ◌↔◌, refl, false, if◌then◌else◌, Option, none, some, List, [], ◌∷◌, ◌++◌, arith, is_empty,
  Bool-cases, inl, inr,
}
use disk_manager.Text.{Text, codes, equals}
use disk_manager.Text.Prefix.{equals_iff}
use disk_manager.Host.{Host}
use disk_manager.Cluster.{Cluster, ApiError}
use disk_manager.Effects.{done}
use disk_manager.World.{World}
use disk_manager.Block.Disk.{Disk, disks}
use disk_manager.Block.Info.{new_info, load}
use disk_manager.Controller.Register.{
  on_change, on_remove, block_device_handler_name, register_node_block_devices, register,
}
use disk_manager.Controller.Delete.{block_device_node_handler_name, register_node}
use disk_manager.Main.{
  or_value, Formatter, simple_format, json_format, text_format, trace_level, debug_level,
  default_level, init_profiling, init_logs, main_action, Options, Given, options_from, Libraries,
  Outcome, returned, fatal, started, run, scan, connect, lead, start_all, settings,
}

-- The formatter of a value of the flag, or of its absence.
abbrev format_of : Option Text → Formatter
format_of o =
    if equals (or_value o (codes "text")) (codes "simple")
    then simple_format
    else if equals (or_value o (codes "text")) (codes "json")
    then json_format
    else text_format

format_of_iff :
    (o : Option Text)
    → ((format_of o ≡ simple_format) ↔ (o ≡ some (codes "simple")))
      × ((format_of o ≡ json_format) ↔ (o ≡ some (codes "json")))
unfolding equals
format_of_iff none = ((λ h. absurd (cc), λ h. absurd (cc)), (λ h. absurd (cc), λ h. absurd (cc)))
format_of_iff (some a) =
    let is_simple = equals_iff a (codes "simple") in
    let is_json = equals_iff a (codes "json") in
    elim (Bool-cases (equals a (codes "simple"))) [
      | inl simple ↦
          ((λ h. ground arith, λ h. ground arith), (λ h. ground arith, λ h. ground arith))
      | inr other ↦ elim (Bool-cases (equals a (codes "json"))) [
        | inl json ↦
            ((λ h. ground arith, λ h. ground arith), (λ h. ground arith, λ h. ground arith))
        | inr text ↦
            ((λ h. ground arith, λ h. ground arith), (λ h. ground arith, λ h. ground arith))
      ]
    ]

module _ (H : Host) (C : Cluster) (L : Libraries) where
  -- The libraries that `run` calls work, up to the start of the controllers.
  pub record Works (opt : Options) : Type 0 where
    pub block : L.block_error ≡ none
    pub kube_config : L.kube_config_error opt.kube_config ≡ none
    pub factory : L.factory_error ≡ none
    pub start : L.start_error opt.threadiness ≡ none

  -- Without a namespace on the command line and in the environment, whatever else is given, the
  -- program returns an error and touches neither the node nor the cluster.
  pub run-options_from :
      (g : Given) (w : World H C)
      → g.text (codes "namespace") ≡ none
      → run H C L (options_from g) w
        ≡ done (returned (codes "either node name or namespace is empty"), w)
  unfolding run options_from
  run-options_from g w absent = ground arith

  -- Without a namespace on the command line and in the environment, whatever else is given, the
  -- program dies with a message, and `run` has touched neither the node nor the cluster. Before that, it
  -- has asked for the profiler at the address that is given, at port 6060 where none is and nowhere
  -- where an empty one is; and its logger has the simple or the JSON format just where that is given,
  -- and the level of the debug and the trace flag, of which trace counts more.
  pub main_action-fatal :
      (g : Given) (w : World H C)
      → g.text (codes "namespace") ≡ none
      → (address : Option Text) × (format : Formatter) × (main_action H C L (options_from g) w
          ≡ done (
            (
              address,
              (
                format,
                if g.flag (codes "trace")
                    then trace_level
                    else if g.flag (codes "debug")
                    then debug_level
                    else default_level,
              ),
              fatal (codes "either node name or namespace is empty"),
            ),
            w,
          ))
        × (address ≡ (elim (g.text (codes "profile-listen-address")) [
          | none ↦ some (codes "0.0.0.0:6060")
          | some a ↦ if is_empty a then none else some a
        ]))
        × ((format ≡ simple_format) ↔ (g.text (codes "log-format") ≡ some (codes "simple")))
        × ((format ≡ json_format) ↔ (g.text (codes "log-format") ≡ some (codes "json")))
  unfolding main_action options_from init_logs init_profiling
  main_action-fatal g w absent =
      let opt = options_from g in
      (
        init_profiling opt,
        (init_logs opt).0,
        ground (arith, run-options_from g w absent),
        by_address (g.text (codes "profile-listen-address")),
        (format_of_iff (g.text (codes "log-format"))).0,
        (format_of_iff (g.text (codes "log-format"))).1,
      )
    where
      by_address :
          (o : Option Text)
          → (if is_empty (or_value o (codes "0.0.0.0:6060"))
              then none
              else some (or_value o (codes "0.0.0.0:6060")))
            ≡ (elim o [
              | none ↦ some (codes "0.0.0.0:6060")
              | some a ↦ if is_empty a then none else some a
            ])
      by_address none = refl
      by_address (some a) = refl

  -- Death with the error's message, or a start with three handlers.
  abbrev pub outcome_of : Option ApiError → Outcome
  outcome_of (some e) = fatal (codes "failed to register block device controller, " ++ e.message)
  outcome_of none = started (
      on_change block_device_handler_name
      ∷ on_remove block_device_handler_name
      ∷ on_remove block_device_node_handler_name
      ∷ [])

  -- With a node name, a namespace, and libraries that work, the start is one registration of the
  -- node's disks: if that returns an error, the program dies with its message, and if not, it has
  -- started with three handlers. The world is as the registration leaves it.
  pub run_starts :
      (opt : Options) (w w' : World H C) (found : List Disk) (failed : Option ApiError)
      → is_empty opt.node_name ≡ false
      → is_empty opt.namespace ≡ false
      → Works opt
      → disks H w.host ≡ some found
      → register_node_block_devices H C (settings opt found) w ≡ done (failed, w')
      → run H C L opt w ≡ done (outcome_of failed, w')
  unfolding run scan new_info load connect lead register start_all register_node
  run_starts opt w w' found none named placed works scanned registered = ground arith
  run_starts opt w w' found (some e) named placed works scanned registered = ground arith

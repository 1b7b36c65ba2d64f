-- ===== src/Controller/Change/Settled.antt =====
-- `OnBlockDeviceChange` called again for the device that it has written.
use disk_manager.Base.{
  ◌≡◌, sym, ap, subst, ◌∙◌, Bool, true, false, not, Option, none, some, List, [], arith, inl, inr,
  is_empty, if◌then◌else◌,
}
use disk_manager.Text.{Text, codes}
use disk_manager.Labels.{same}
use disk_manager.Host.{Host}
use disk_manager.Api.{BlockDevice, Time, Condition, device_mounted}
use disk_manager.Api.Equal.{deep_equal}
use disk_manager.Api.Equal.Reflexive.{deep_equal_self}
use disk_manager.Cluster.{Cluster}
use disk_manager.Effects.{done}
use disk_manager.World.{World, Toolkit}
use disk_manager.Controller.FileSystem.{is_valid_file_system}
use disk_manager.Controller.Change.{
  set_conditions, set_outcome, report_mounted, finish_change, change_device, on_block_device_change,
}
use disk_manager.Controller.Change.Mounted.{
  IsLawful, IsMounted, outcome, outcome_cases, outcome_iff, IsMounted-mount_point,
}

-- wrangler's conditions change nothing, and no time in them, when they are to be written as they are. A
-- condition with a status is there: one that is not would be added.
pub record IsSteady (K : Toolkit) (L : IsLawful K) : Type 0 where
  pub reason_of : Text → List Condition → Text
  pub reason-set_error :
      (now : Time) (name : Text) (err : Option Text) (cs : List Condition)
      → reason_of name (K.set_error now name [] err cs)
        ≡ (elim err [ none ↦ [] | some e ↦ codes "Error" ])
  pub reason-set_message :
      (now : Time) (name message : Text) (cs : List Condition)
      → reason_of name (K.set_message now name message cs) ≡ reason_of name cs
  pub set_status_bool-same :
      (now : Time) (name : Text) (b : Bool) (cs : List Condition)
      → L.status_of name cs ≡ (if b then codes "True" else codes "False")
      → K.set_status_bool now name b cs ≡ cs
  pub set_error-same :
      (now : Time) (name : Text) (err : Option Text) (cs : List Condition)
      → L.status_of name cs ≡ (elim err [ none ↦ codes "True" | some e ↦ codes "False" ])
      → L.message_of name cs ≡ (elim err [ none ↦ [] | some e ↦ e ])
      → reason_of name cs ≡ (elim err [ none ↦ [] | some e ↦ codes "Error" ])
      → K.set_error now name [] err cs ≡ cs
  pub set_message-same :
      (now : Time) (name message : Text) (cs : List Condition)
      → L.status_of name cs ≡ codes "False"
      → L.message_of name cs ≡ message
      → K.set_message now name message cs ≡ cs

module _ (K : Toolkit) (L : IsLawful K) (T : IsSteady K L) (now later : Time) where
  -- The conditions have the outcome written in them.
  pub record Written (o : Option Text) (cs : List Condition) : Type 0 where
    pub status :
        L.status_of device_mounted cs ≡ (elim o [ none ↦ codes "True" | some e ↦ codes "False" ])
    pub message : L.message_of device_mounted cs ≡ (elim o [ none ↦ [] | some e ↦ e ])
    pub reason : T.reason_of device_mounted cs ≡ (elim o [ none ↦ [] | some e ↦ codes "Error" ])

  set_outcome-Written :
      (o : Option Text × Bool) (bd : BlockDevice)
      → Written o.0 (set_outcome K now o bd).status.conditions
  unfolding set_outcome
  set_outcome-Written (none, valid) bd = record {
    status = L.status-set_error now device_mounted [] none _;
    message = L.message-set_error now device_mounted [] none _;
    reason = T.reason-set_error now device_mounted none _;
  }
  set_outcome-Written (some e, valid) bd = record {
    status =
        L.status-set_message now device_mounted e _
        ∙ L.status-set_error now device_mounted [] (some e) _;
    message = L.message-set_message now device_mounted e _;
    reason =
        T.reason-set_message now device_mounted e _
        ∙ T.reason-set_error now device_mounted (some e) _;
  }

  module _ (d : BlockDevice) where
    abbrev conditions : List Condition
    conditions = d.status.conditions

    -- An outcome that is written already is not written again.
    set_outcome-true :
        Written none conditions
        → is_empty d.status.device_status.file_system.mount_point ≡ false
        → set_outcome K later (none, true) d ≡ d
    unfolding set_outcome
    set_outcome-true written placed = ap (set_conditions d) (
        ap
          (λ b.
            K.set_error later device_mounted [] none
              (K.set_status_bool later device_mounted (not b) conditions))
          placed
        ∙ ap (K.set_error later device_mounted [] none)
            (T.set_status_bool-same later device_mounted true conditions written.status)
        ∙ T.set_error-same later device_mounted none conditions written.status written.message
            written.reason)

    set_outcome-false :
        (e : Text) → Written (some e) conditions → set_outcome K later (some e, false) d ≡ d
    unfolding set_outcome
    set_outcome-false e written = ap (set_conditions d) (
        ap
          (λ cs.
            K.set_message later device_mounted e (K.set_error later device_mounted [] (some e) cs))
          (T.set_status_bool-same later device_mounted false conditions written.status)
        ∙ ap (K.set_message later device_mounted e) (
            T.set_error-same later device_mounted (some e) conditions written.status written.message
              written.reason)
        ∙ T.set_message-same later device_mounted e conditions written.status written.message)

  module _ (bd d : BlockDevice) (same_spec : d.spec ≡ bd.spec)
      (same_status : d.status ≡ (report_mounted K now bd).status)
      (asked : is_empty bd.spec.file_system.mount_point ≡ false) where
    file_system-same : d.status.device_status.file_system ≡ bd.status.device_status.file_system
    unfolding report_mounted set_outcome
    file_system-same = ap (λ s. s.device_status.file_system) same_status

    outcome-same : outcome K d ≡ outcome K bd
    outcome-same = λ i. is_valid_file_system K (same_spec i).file_system (file_system-same i)

    written : Written (outcome K d).0 d.status.conditions
    unfolding report_mounted
    written =
        subst (λ o. Written o.0 d.status.conditions) (sym outcome-same)
          (subst (λ cs. Written (outcome K bd).0 cs) (sym (ap (λ s. s.conditions) same_status))
            (set_outcome-Written (outcome K bd) bd))

    report_mounted-same : report_mounted K later d ≡ d
    unfolding report_mounted
    report_mounted-same = elim (outcome_cases K d) [
      | inl (valid, fine) ↦
          subst (λ o. set_outcome K later o d ≡ d) (sym (pair fine valid))
            (set_outcome-true d (subst (λ o. Written o d.status.conditions) fine written) (
              IsMounted-mount_point K d
                (subst (λ s. is_empty s.file_system.mount_point ≡ false) (sym same_spec) asked)
                ((outcome_iff K d).0 valid)))
      | inr (invalid, (e, failed)) ↦
          subst (λ o. set_outcome K later o d ≡ d) (sym (pair failed invalid))
            (set_outcome-false d e (subst (λ o. Written o d.status.conditions) failed written))
    ]
      where
        pair :
            {o : Option Text} {b : Bool}
            → (outcome K d).0 ≡ o
            → (outcome K d).1 ≡ b
            → outcome K d ≡ (o, b)
        pair x y = λ i. (x i, y i)

    -- Where wrangler's conditions keep their laws: for a device that asks for a mount point, is mounted
    -- as it asks, is not being deleted, has labels that are a map, and has the status which the
    -- handler wrote for it before, the handler leaves the node and the cluster as they are, at
    -- whatever time it is called again.
    pub on_block_device_change-settled :
        (H : Host) (C : Cluster) (w : World H C)
        → IsMounted K bd
        → d.object_meta.deletion_timestamp ≡ none
        → same d.object_meta.labels d.object_meta.labels ≡ true
        → on_block_device_change H C K later (some d) w ≡ done ((none, none), w)
    unfolding on_block_device_change change_device finish_change
    on_block_device_change-settled H C w mounted alive labels =
        let valid : (outcome K d).1 ≡ true =
          ap (λ o. o.1) outcome-same ∙ (outcome_iff K bd).1 mounted in
        let wants : is_empty d.spec.file_system.mount_point ≡ false =
          subst (λ s. is_empty s.file_system.mount_point ≡ false) (sym same_spec) asked in
        let equal : deep_equal d (report_mounted K later d) ≡ true =
          subst (λ r. deep_equal d r ≡ true) (sym report_mounted-same) (deep_equal_self d labels) in
        ground (arith, alive, wants, valid, equal)

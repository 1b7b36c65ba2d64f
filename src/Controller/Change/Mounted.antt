-- ===== src/Controller/Change/Mounted.antt =====
-- The condition `Mounted` that `OnBlockDeviceChange` writes.
use disk_manager.Base.{
  ℕ, ◌≡◌, ◌↔◌, ◌⊎◌, subst, refl, ◌∙◌, Bool, true, false, Option, none, some, List, [], ◌∷◌, arith,
  Bool-cases, Option-cases, inl, inr, is_empty,
}
use disk_manager.Text.{Text, codes, equals, byte_length, trim_suffix}
use disk_manager.Text.Prefix.{equals_iff}
use disk_manager.Api.{BlockDevice, Time, Condition, device_mounted}
use disk_manager.World.{Toolkit}
use disk_manager.Controller.FileSystem.{is_valid_file_system, wanted_mount_point}
use disk_manager.Controller.Change.{set_outcome, report_mounted}

-- What the handlers rely on of wrangler's conditions: an error is written as the status False with its
-- message, no error as the status True, and a message changes no status.
pub record IsLawful (K : Toolkit) : Type 0 where
  pub status_of : Text → List Condition → Text
  pub message_of : Text → List Condition → Text
  pub status-set_error :
      (now : Time) (name reason : Text) (err : Option Text) (cs : List Condition)
      → status_of name (K.set_error now name reason err cs)
        ≡ (elim err [ none ↦ codes "True" | some e ↦ codes "False" ])
  pub message-set_error :
      (now : Time) (name reason : Text) (err : Option Text) (cs : List Condition)
      → message_of name (K.set_error now name reason err cs) ≡ (elim err [ none ↦ [] | some e ↦ e ])
  pub status-set_message :
      (now : Time) (name message : Text) (cs : List Condition)
      → status_of name (K.set_message now name message cs) ≡ status_of name cs
  pub message-set_message :
      (now : Time) (name message : Text) (cs : List Condition)
      → message_of name (K.set_message now name message cs) ≡ message

slash_is_short : (s : Text) → equals s (codes "/") ≡ true → byte_length s ≡ 1
slash_is_short s h = rw ((equals_iff s (codes "/")).0 h) (unfold byte_length in refl)

trim_suffix-ne-nil :
    (c : ℕ) (s : Text)
    → equals (c ∷ s) (codes "/") ≡ false
    → is_empty (trim_suffix (c ∷ s) (codes "/")) ≡ false
unfolding trim_suffix
trim_suffix-ne-nil c s h = ground arith

-- A mount point that is asked for stays one without its last slash.
wanted_mount_point-ne-nil :
    (mp : Text) → is_empty mp ≡ false → is_empty (wanted_mount_point mp) ≡ false
unfolding wanted_mount_point
wanted_mount_point-ne-nil [] h = cc
wanted_mount_point-ne-nil (c ∷ mp) h = elim (Bool-cases (equals (c ∷ mp) (codes "/"))) [
  | inl root ↦ ground (arith, slash_is_short (c ∷ mp) root)
  | inr other ↦ ground (arith, trim_suffix-ne-nil c mp other)
]

abbrev pub outcome : Toolkit → BlockDevice → Option Text × Bool
outcome K bd = is_valid_file_system K bd.spec.file_system bd.status.device_status.file_system

-- The device has the mount point that is asked for, but for a slash at the end, and a file system that
-- is supported.
pub record IsMounted (K : Toolkit) (bd : BlockDevice) : Type 0 where
  pub in_place :
      wanted_mount_point bd.spec.file_system.mount_point
      ≡ bd.status.device_status.file_system.mount_point
  pub supported : K.is_supported_file_system bd.status.device_status.file_system.fs_type ≡ true

-- The check either gives no error and holds, or gives an error and fails.
pub outcome_cases :
    (K : Toolkit) (bd : BlockDevice)
    → (((outcome K bd).1 ≡ true) × ((outcome K bd).0 ≡ none))
      ⊎ (((outcome K bd).1 ≡ false) × ((e : Text) × ((outcome K bd).0 ≡ some e)))
unfolding is_valid_file_system
outcome_cases K bd = elim (Option-cases (outcome K bd).0) [
  | inl n ↦ inl (ground arith, n)
  | inr (e, h) ↦ inr (ground arith, (e, h))
]

pub outcome_iff : (K : Toolkit) (bd : BlockDevice) → ((outcome K bd).1 ≡ true) ↔ IsMounted K bd
unfolding is_valid_file_system
outcome_iff K bd = ground (
  arith,
  equals_iff (wanted_mount_point bd.spec.file_system.mount_point)
      bd.status.device_status.file_system.mount_point,
)

-- A mounted device has a mount point, if one is asked for: the handler's second test never decides.
pub IsMounted-mount_point :
    (K : Toolkit) (bd : BlockDevice)
    → is_empty bd.spec.file_system.mount_point ≡ false
    → IsMounted K bd
    → is_empty bd.status.device_status.file_system.mount_point ≡ false
IsMounted-mount_point K bd asked m =
    subst (λ mp. is_empty mp ≡ false) m.in_place
      (wanted_mount_point-ne-nil bd.spec.file_system.mount_point asked)

module _ (K : Toolkit) (L : IsLawful K) (now : Time) (bd : BlockDevice) where
  status-set_outcome :
      (o : Option Text × Bool)
      → L.status_of device_mounted (set_outcome K now o bd).status.conditions
        ≡ (elim o.0 [ none ↦ codes "True" | some e ↦ codes "False" ])
  unfolding set_outcome
  status-set_outcome (none, valid) = L.status-set_error now device_mounted [] none _
  status-set_outcome (some e, valid) =
      L.status-set_message now device_mounted e _
      ∙ L.status-set_error now device_mounted [] (some e) _

  message-set_outcome :
      (o : Option Text × Bool) (e : Text)
      → o.0 ≡ some e
      → L.message_of device_mounted (set_outcome K now o bd).status.conditions ≡ e
  unfolding set_outcome
  message-set_outcome (none, valid) e h = absurd (cc)
  message-set_outcome (some d, valid) e h =
      L.message-set_message now device_mounted d _ ∙ ground arith

  abbrev pub reported : List Condition
  reported = (report_mounted K now bd).status.conditions

  -- If the conditions keep their laws, the condition that is written is True exactly when the
  -- device is mounted as asked; if it is not, the condition is False, and its message is the error
  -- of the check.
  pub condition_status_iff :
      ((L.status_of device_mounted reported ≡ codes "True") ↔ IsMounted K bd)
      × ((¬ IsMounted K bd)
          → (L.status_of device_mounted reported ≡ codes "False")
            × (some (L.message_of device_mounted reported) ≡ (outcome K bd).0))
  unfolding report_mounted
  condition_status_iff = elim (outcome_cases K bd) [
    | inl (valid, fine) ↦
        let m = (outcome_iff K bd).0 valid in
        ((λ h. m, λ h. ground (arith, status-set_outcome (outcome K bd))), λ n. absurd (n m))
    | inr (invalid, (e, failed)) ↦
        let n : ¬ IsMounted K bd = λ m. ground (arith, (outcome_iff K bd).1 m) in
        let status = status-set_outcome (outcome K bd) in
        (
          (λ h. ground (arith, status), λ m. absurd (n m)),
          λ n'.
              (ground (arith, status), ground (arith, message-set_outcome (outcome K bd) e failed)),
        )
  ]

-- ===== src/Controller/FileSystem/Mounting.antt =====
-- `mountDevice`: what a mount that succeeds has done to the node.
use disk_manager.Base.{
  ◌≡◌, refl, ap, subst, ◌∙◌, ◌⊎◌, inl, inr, Option, none, some, arith, Option-cases,
}
use disk_manager.Text.{Text, codes}
use disk_manager.Host.{Host, Stat, exists, not_exist, stat_error}
use disk_manager.Block.Mount.{mount_ext4, ms_relatime, ext4_mount_options}
use disk_manager.Controller.FileSystem.{mount_device, mount_at, mount_if_made, mode_dir}

-- A mount by the kernel has worked, on a mount point that was there or has just been made.
abbrev pub MountedAt : (H : Host) → Text → Text → H.State → H.State → Type 0
MountedAt H device path s s' =
    (s₁ : H.State) × (((H.stat s path ≡ exists) × (s₁ ≡ s))
      ⊎ ((H.stat s path ≡ not_exist) × (H.mkdir path mode_dir s ≡ (none, s₁))))
    × (H.mount device path (codes "ext4") ms_relatime ext4_mount_options s₁ ≡ (none, s'))

module _ (H : Host) where
  abbrev kernel : Text → Text → H.State → Option Text × H.State
  kernel device path = H.mount device path (codes "ext4") ms_relatime ext4_mount_options

  mount_at-works :
      (device path : Text) (s : H.State)
      → (mount_at H device path s).0 ≡ none
      → H.mount device path (codes "ext4") ms_relatime ext4_mount_options s
        ≡ (none, (mount_at H device path s).1)
  unfolding mount_at mount_ext4
  mount_at-works device path s fine = elim (Option-cases (kernel device path s).0) [
    | inl ok ↦ λ i. (ok i, (kernel device path s).1)
    | inr (e, failed) ↦ absurd (ground (arith, fine, failed))
  ]

  -- The mount succeeds just by a mount of the kernel.
  pub mount_device-MountedAt :
      (device path : Text) (s : H.State)
      → (mount_device H device path s).0 ≡ none
      → MountedAt H device path s (mount_device H device path s).1
  unfolding mount_device mount_if_made
  mount_device-MountedAt device path s fine = by_stat (H.stat s path) refl
    where
      after_mkdir :
          (m : Option Text × H.State)
          → H.mkdir path mode_dir s ≡ m
          → H.stat s path ≡ not_exist
          → (mount_if_made H device path m).0 ≡ none
          → MountedAt H device path s (mount_if_made H device path m).1
      after_mkdir (some e, s₁) made missing ok = absurd (cc)
      after_mkdir (none, s₁) made missing ok =
          (s₁, inr (missing, made), mount_at-works device path s₁ ok)

      by_stat :
          (st : Stat)
          → H.stat s path ≡ st
          → MountedAt H device path s (mount_device H device path s).1
      by_stat exists there =
          let same : mount_at H device path s ≡ mount_device H device path s =
            ground (arith, there) in
          subst (λ r. MountedAt H device path s r.1) same
            (s, inl (there, refl), mount_at-works device path s (ap (λ r. r.0) same ∙ fine))
      by_stat not_exist missing =
          let same : mount_if_made H device path (H.mkdir path mode_dir s)
              ≡ mount_device H device path s =
            ground (arith, missing) in
          subst (λ r. MountedAt H device path s r.1) same
            (after_mkdir (H.mkdir path mode_dir s) refl missing (ap (λ r. r.0) same ∙ fine))
      by_stat (stat_error e) failed = absurd (ground (arith, fine, failed))

-- ===== src/Block/Disk/Scan.antt =====
-- Which disks and partitions a scan returns.
use disk_manager.Base.{
  ◌≡◌, refl, ap, ◌∙◌, Bool, not, Option, none, some, List, [], ◌∷◌, map, arith, Bool-cases, inl,
  inr, All, keep_if,
}
use disk_manager.Text.{Text, codes, has_prefix}
use disk_manager.Path.{join}
use disk_manager.Host.{Host}
use disk_manager.Block.Sysfs.{partition_size_bytes}
use disk_manager.Block.Disk.{
  Partition, Disk, partition_of, partitions_among, disk_partitions, get_disk, disks_among, disks,
  link_to, ◌>>=◌,
}

>>=-eq-some :
    {A B : Type 0} (m : Option A) (f : A → Option B) {b : B}
    → (m >>= f) ≡ some b
    → (a : A) × (m ≡ some a) × (f a ≡ some b)
>>=-eq-some none f h = cc
>>=-eq-some (some a) f h = (a, refl, h)

abbrev pub names_partition : Text → Text → Bool
names_partition disk name = has_prefix name disk

abbrev pub names_disk : Text → Bool
names_disk name = not (has_prefix name (codes "loop"))

module _ (H : Host) (s : H.State) where
  partition_of-name :
      (disk name : Text) {p : Partition}
      → partition_of H s disk name ≡ some p
      → (p.name ≡ name) × (p.size_bytes ≡ partition_size_bytes H s disk name)
  unfolding partition_of
  partition_of-name disk name h = ground arith

  partitions_among-names :
      (disk : Text) (names : List Text) {ps : List Partition}
      → partitions_among H s disk names ≡ some ps
      → map (λ p. p.name) ps ≡ keep_if (names_partition disk) names
  unfolding partitions_among
  partitions_among-names disk [] h = ground arith
  partitions_among-names disk (name ∷ names) {ps} h = elim (Bool-cases (has_prefix name disk)) [
    | inr other ↦ rw other (partitions_among-names disk names {ps = ps} (ground arith))
    | inl ours ↦
        let kept : (partition_of H s disk name >>= λ p.
        partitions_among H s disk names >>= λ qs. some (p ∷ qs))
            ≡ some ps =
          ground arith in
        let (p, is_p, later) = >>=-eq-some (partition_of H s disk name) _ kept in
        let (qs, are_qs, e) = >>=-eq-some (partitions_among H s disk names) _ later in
        rw ours (
          ground
            (arith, partition_of-name disk name is_p, partitions_among-names disk names are_qs))
  ]

  get_disk-name : (name : Text) {d : Disk} → get_disk H s name ≡ some d → d.name ≡ name
  unfolding get_disk
  get_disk-name name h = ground arith

  disks_among-names :
      (names : List Text) {ds : List Disk}
      → disks_among H s names ≡ some ds
      → map (λ d. d.name) ds ≡ keep_if names_disk names
  unfolding disks_among
  disks_among-names [] h = ground arith
  disks_among-names (name ∷ names) {ds} h = elim (Bool-cases (has_prefix name (codes "loop"))) [
    | inl other ↦ rw other (disks_among-names names {ds = ds} (ground arith))
    | inr ours ↦
        let kept : (get_disk H s name >>= λ d. disks_among H s names >>= λ rest. some (d ∷ rest))
            ≡ some ds =
          ground arith in
        let (d, is_d, later) = >>=-eq-some (get_disk H s name) _ kept in
        let (rest, are_rest, e) = >>=-eq-some (disks_among H s names) _ later in
        rw ours (ground (arith, get_disk-name name is_d, disks_among-names names are_rest))
  ]

  -- If the directory of block devices can be read and the scan returns, its disks are named after the
  -- entries that do not begin with "loop", in their order.
  pub disks-names :
      (names : List Text) {ds : List Disk}
      → H.read_dir s H.paths.sys_block ≡ some names
      → disks H s ≡ some ds
      → map (λ d. d.name) ds ≡ keep_if names_disk names
  unfolding disks
  disks-names names {ds} e h = disks_among-names names {ds = ds} (ground arith)

  link_to-names :
      (name : Text) (ps : List Partition)
      → map (λ p. p.name) (map (link_to name) ps) ≡ map (λ p. p.name) ps
  link_to-names name [] = refl
  link_to-names name (p ∷ ps) = ap (◌∷◌ p.name) (link_to-names name ps)

  link_to-disk :
      (name : Text) (ps : List Partition) → All (λ p. p.disk ≡ some name) (map (link_to name) ps)
  link_to-disk name [] = tt
  link_to-disk name (p ∷ ps) = (refl, link_to-disk name ps)

  get_disk-parts :
      (name : Text) {d : Disk}
      → get_disk H s name ≡ some d
      → (ps : List Partition) × (disk_partitions H s name ≡ some ps)
        × (d.partitions ≡ map (link_to name) ps)
  unfolding get_disk
  get_disk-parts name h = ground arith

  -- If the disk's directory can be read and the scan of the disk returns, the disk has its own name, and
  -- as partitions the entries of the directory that begin with that name, in order, each pointing back
  -- to the disk.
  pub get_disk-partitions :
      (name : Text) (names : List Text) {d : Disk}
      → H.read_dir s (join (H.paths.sys_block ∷ name ∷ [])) ≡ some names
      → get_disk H s name ≡ some d
      → (d.name ≡ name)
        × (map (λ p. p.name) d.partitions ≡ keep_if (names_partition name) names)
        × All (λ p. p.disk ≡ some name) d.partitions
  unfolding disk_partitions
  get_disk-partitions name names e h =
      let (ps, are_ps, parts) = get_disk-parts name h in
      (
        get_disk-name name h,
        rw parts
            (link_to-names name ps ∙ partitions_among-names name names {ps = ps} (ground arith)),
        rw parts (link_to-disk name ps),
      )

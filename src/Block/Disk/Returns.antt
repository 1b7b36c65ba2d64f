-- ===== src/Block/Disk/Returns.antt =====
-- When a scan returns: no line of the mounts file is empty.
use disk_manager.Base.{
  ◌≡◌, ◌≢◌, refl, false, Option, none, some, List, [], ◌∷◌, arith, Bool-cases, Option-cases, inl,
  inr, All, is_empty,
}
use disk_manager.Text.{Text, codes, has_prefix}
use disk_manager.Path.{join}
use disk_manager.Host.{Host}
use disk_manager.Block.Mounts.{
  MountEntry, MountInfo, parse_mount_entry, find_mount, scan_lines, partition_info, not_mounted,
}
use disk_manager.Block.Blkid.{device_path}
use disk_manager.Block.Disk.{
  Partition, Disk, partition_of, partitions_among, disk_partitions, get_disk, disks_among, disks,
}

-- A file that is missing, or whose lines have a first character each.
abbrev pub NoEmptyLine : Option Text → Type 0
NoEmptyLine none = Unit
NoEmptyLine (some contents) = All (λ l. is_empty l ≡ false) (scan_lines contents)

parse_mount_entry-returns :
    (l : Text) → is_empty l ≡ false → (e : Option MountEntry) × (parse_mount_entry l ≡ some e)
unfolding parse_mount_entry
parse_mount_entry-returns [] h = absurd (cc)
parse_mount_entry-returns (c ∷ l) h = (_, refl)

find_mount-ne-none :
    (part : Text) (ls : List Text) → All (λ l. is_empty l ≡ false) ls → find_mount part ls ≢ none
unfolding find_mount
find_mount-ne-none part [] h lost = cc
find_mount-ne-none part (l ∷ ls) (hl, hls) lost =
    let (e, parsed) = parse_mount_entry-returns l hl in
    ground (arith, find_mount-ne-none part ls hls)

find_mount-returns :
    (part : Text) (ls : List Text)
    → All (λ l. is_empty l ≡ false) ls
    → (m : MountInfo) × (find_mount part ls ≡ some m)
find_mount-returns part ls h = elim (Option-cases (find_mount part ls)) [
  | inr found ↦ found
  | inl lost ↦ absurd (find_mount-ne-none part ls h lost)
]

info-returns :
    (contents : Option Text) (part : Text)
    → NoEmptyLine contents
    → (m : MountInfo) × ((elim contents [
      | none ↦ some not_mounted
      | some c ↦ find_mount (device_path part) (scan_lines c)
    ])
        ≡ some m)
info-returns none part h = (not_mounted, refl)
info-returns (some c) part h = find_mount-returns (device_path part) (scan_lines c) h

module _ (H : Host) (s : H.State) (sound : NoEmptyLine (H.read_file s H.paths.proc_mounts)) where
  partition_info-returns : (part : Text) → (m : MountInfo) × (partition_info H s part ≡ some m)
  unfolding partition_info
  partition_info-returns part = info-returns (H.read_file s H.paths.proc_mounts) part sound

  partition_of-returns :
      (disk name : Text) → (p : Partition) × (partition_of H s disk name ≡ some p)
  unfolding partition_of
  partition_of-returns disk name =
      let (m, e) = partition_info-returns name in
      elim (Option-cases (partition_of H s disk name)) [
        | inr found ↦ found
        | inl lost ↦ absurd (ground arith)
      ]

  partitions_among-returns :
      (disk : Text) (names : List Text)
      → (ps : List Partition) × (partitions_among H s disk names ≡ some ps)
  unfolding partitions_among
  partitions_among-returns disk [] = ([], refl)
  partitions_among-returns disk (name ∷ names) =
      let (ps, rest) = partitions_among-returns disk names in
      let (p, one) = partition_of-returns disk name in
      elim (Bool-cases (has_prefix name disk)) [
        | inl t ↦ (p ∷ ps, ground arith)
        | inr f ↦ (ps, ground arith)
      ]

  disk_partitions-returns :
      (disk : Text) → (ps : List Partition) × (disk_partitions H s disk ≡ some ps)
  unfolding disk_partitions
  disk_partitions-returns disk =
      elim (Option-cases (H.read_dir s (join (H.paths.sys_block ∷ disk ∷ [])))) [
        | inl e ↦ ([], ground arith)
        | inr (names, e) ↦ let (ps, are) = partitions_among-returns disk names in (ps, ground arith)
      ]

  get_disk-returns : (name : Text) → (d : Disk) × (get_disk H s name ≡ some d)
  unfolding get_disk
  get_disk-returns name =
      let (m, e) = partition_info-returns name in
      let (ps, are) = disk_partitions-returns name in
      elim (Option-cases (get_disk H s name)) [
        | inr found ↦ found
        | inl lost ↦ absurd (ground arith)
      ]

  disks_among-returns : (names : List Text) → (ds : List Disk) × (disks_among H s names ≡ some ds)
  unfolding disks_among
  disks_among-returns [] = ([], refl)
  disks_among-returns (name ∷ names) =
      let (ds, rest) = disks_among-returns names in
      let (d, one) = get_disk-returns name in
      elim (Bool-cases (has_prefix name (codes "loop"))) [
        | inl t ↦ (ds, ground arith)
        | inr f ↦ (d ∷ ds, ground arith)
      ]

  -- If no line of the mounts file is empty, or there is none, the scan of all disks returns and so
  -- does the scan of each one: neither panics.
  pub disks_return :
      ((ds : List Disk) × (disks H s ≡ some ds))
      × ((name : Text) → (d : Disk) × (get_disk H s name ≡ some d))
  unfolding disks
  disks_return = (
    elim (Option-cases (H.read_dir s H.paths.sys_block)) [
      | inl e ↦ ([], ground arith)
      | inr (names, e) ↦ let (ds, are) = disks_among-returns names in (ds, ground arith)
    ],
    get_disk-returns,
  )

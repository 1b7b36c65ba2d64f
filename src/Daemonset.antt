-- ===== src/Daemonset.antt =====
-- cmd/ndm_daemonset/main.go: a second program, which logs what ghw finds. ghw and its formats are
-- parameters; a run ends with its log.
use disk_manager.Base.{
  ◌≡◌, refl, ◌+◌, ℕ, suc, Option, none, some, List, [], ◌∷◌, ◌++◌, ◌⊎◌, inl, inr, arith, length,
  length-append,
}
use disk_manager.Text.{Text, codes}

-- `block.Info` of ghw, as far as the program reads it, and the texts that `%v` makes.
pub record Ghw : Type 1 where
  pub Partition : Type 0
  pub Disk : Type 0
  pub Info : Type 0
  pub partitions : Disk → List Partition
  pub disks : Info → List Disk
  pub show_partition : Partition → Text
  pub show_disk : Disk → Text
  pub show_info : Info → Text

-- The log, and the message that the program died with, if it did.
pub record Ended : Type 0 where
  pub log : List Text
  pub fatal : Option Text

module _ (G : Ghw) where
  -- The inner loop
  unfoldable pub partition_lines : List G.Partition → List Text
  partition_lines [] = []
  partition_lines (part ∷ parts) =
      (codes "\tpart: " ++ G.show_partition part ++ codes "\n") ∷ partition_lines parts

  -- The outer loop
  unfoldable pub disk_lines : List G.Disk → List Text
  disk_lines [] = []
  disk_lines (disk ∷ disks) =
      (codes " disk: " ++ G.show_disk disk ++ codes "\n") ∷ partition_lines (G.partitions disk)
      ++ disk_lines disks

  -- `run`, by what `ghw.Block` returns
  unfoldable pub run : Text ⊎ G.Info → Ended
  run (inl e) = record { log = []; fatal = some (codes "Error getting block storage info: " ++ e) }
  run (inr block) = record {
    log = (codes "block: " ++ G.show_info block ++ codes "\n") ∷ disk_lines (G.disks block);
    fatal = none;
  }

  abbrev pub devices_of : List G.Disk → ℕ
  devices_of [] = 0
  devices_of (disk ∷ disks) = suc (length (G.partitions disk)) + devices_of disks

  length-partition_lines :
      (parts : List G.Partition) → length (partition_lines parts) ≡ length parts
  unfolding partition_lines
  length-partition_lines [] = refl
  length-partition_lines (part ∷ parts) = omega (arith, length-partition_lines parts)

  length-disk_lines : (disks : List G.Disk) → length (disk_lines disks) ≡ devices_of disks
  unfolding disk_lines
  length-disk_lines [] = refl
  length-disk_lines (disk ∷ disks) = omega (
    arith,
    length-append (partition_lines (G.partitions disk)) (disk_lines disks),
    length-partition_lines (G.partitions disk),
    length-disk_lines disks,
  )

  -- A run that does not die logs one line for all, and one for each disk and each partition.
  pub length-run :
      (block : G.Info) → length (run (inr block)).log ≡ suc (devices_of (G.disks block))
  unfolding run
  length-run block = omega (arith, length-disk_lines (G.disks block))

-- ===== src/Block/Sysfs/Sizes.antt =====
-- The sizes of disks and partitions, from the files of sysfs.
use disk_manager.Base.{
  ℕ, refl, Option, none, ◌*◌, ◌%◌, ◌^◌, ◌<◌, ◌≡◌, some, [], ◌∷◌, ◌++◌, arith, All,
}
use disk_manager.Text.{Text, codes, trim_space}
use disk_manager.Text.Trimming.{Blank, trim_space-Solid}
use disk_manager.Text.Number.Decimal.{decimal, parse_uint-decimal}
use disk_manager.Text.Number.Digits.{IsDigit, value_from, parse_uint-value, digits-Solid}
use disk_manager.Path.{join}
use disk_manager.Host.{Host}
use disk_manager.Block.Sysfs.{
  number_in, sectors_to_bytes, sector_size, disk_size_bytes, partition_size_bytes,
  disk_physical_block_size_bytes,
}

number_in-value :
    (c : ℕ) (s b : Text)
    → All IsDigit (c ∷ s)
    → Blank b
    → value_from (c ∷ s) 0 < 2 ^ 64
    → number_in (some (c ∷ s ++ b)) ≡ value_from (c ∷ s) 0
unfolding number_in
number_in-value c s b h hb fits =
    ground
      (arith, trim_space-Solid (c ∷ s) b (digits-Solid (c ∷ s) h) hb, parse_uint-value c s h fits)

-- The number that a file writes, between blank characters; 0 where it writes none.
abbrev pub written : Option Text → ℕ
written none = 0
written (some contents) = decimal (trim_space contents)

number_in-written : (contents : Option Text) → number_in contents ≡ written contents
unfolding number_in
number_in-written none = refl
number_in-written (some contents) = ground (arith, parse_uint-decimal (trim_space contents))

sectors_to_bytes_bounds :
    (n : ℕ) → (sectors_to_bytes n < 2 ^ 64) × (sectors_to_bytes n % sector_size ≡ 0)
unfolding sectors_to_bytes
sectors_to_bytes_bounds n = (omega arith, omega arith)

sectors_to_bytes_exact : (n : ℕ) → n < 2 ^ 55 → sectors_to_bytes n ≡ n * sector_size
unfolding sectors_to_bytes
sectors_to_bytes_exact n h = omega arith

module _ (H : Host) (s : H.State) (disk : Text) where
  abbrev pub size_file : Text
  size_file = join (H.paths.sys_block ∷ disk ∷ codes "size" ∷ [])

  -- If the file size holds a decimal number below 2^55, with at most blank characters after it, the
  -- size of the disk is that number of sectors in bytes, without an overflow.
  pub disk_size_bytes-value :
      (c : ℕ) (digits b : Text)
      → All IsDigit (c ∷ digits)
      → Blank b
      → value_from (c ∷ digits) 0 < 2 ^ 55
      → H.read_file s size_file ≡ some (c ∷ digits ++ b)
      → disk_size_bytes H s disk ≡ value_from (c ∷ digits) 0 * sector_size
  unfolding disk_size_bytes
  disk_size_bytes-value c digits b h hb small read =
      rw (read, number_in-value c digits b h hb (omega arith))
        (sectors_to_bytes_exact (value_from (c ∷ digits) 0) small)

  -- Whatever the file size holds, or if it cannot be read, the size of the disk is a uint64 and a
  -- whole number of sectors.
  pub disk_size_bytes_bounds :
      (disk_size_bytes H s disk < 2 ^ 64) × (disk_size_bytes H s disk % sector_size ≡ 0)
  unfolding disk_size_bytes
  disk_size_bytes_bounds = sectors_to_bytes_bounds (number_in (H.read_file s size_file))

  abbrev pub partition_file : Text → Text
  partition_file part = join (H.paths.sys_block ∷ disk ∷ part ∷ codes "size" ∷ [])

  abbrev pub block_size_file : Text
  block_size_file =
      join (H.paths.sys_block ∷ disk ∷ codes "queue" ∷ codes "physical_block_size" ∷ [])

  -- The sizes of a disk and of a partition are the decimal numbers of their files, times the size of
  -- a sector modulo 2^64, and the block size is that of its file. A number is a text of digits, at
  -- least one, below 2^64, with white space around it; any other content, and no file, count as 0.
  pub sizes-decimal :
      (part : Text)
      → (disk_size_bytes H s disk ≡ (written (H.read_file s size_file) * sector_size) % 2 ^ 64)
        × (partition_size_bytes H s disk part
            ≡ (written (H.read_file s (partition_file part)) * sector_size) % 2 ^ 64)
        × (disk_physical_block_size_bytes H s disk ≡ written (H.read_file s block_size_file))
  unfolding disk_size_bytes partition_size_bytes disk_physical_block_size_bytes sectors_to_bytes
  sizes-decimal part = (
    rw (number_in-written (H.read_file s size_file)) refl,
    rw (number_in-written (H.read_file s (partition_file part))) refl,
    number_in-written (H.read_file s block_size_file),
  )

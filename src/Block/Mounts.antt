-- ===== src/Block/Mounts.antt =====
-- pkg/block/block_device.go: the entries of /proc/mounts. `none` is a panic: the source takes the
-- first byte of each line, and an empty line has none.
pub mod Lines
pub mod Found
use disk_manager.Base.{
  ◌&&◌, ℕ, Bool, true, false, not, Option, none, some, List, [], ◌∷◌, ltb, ◌==◌, if◌then◌else◌,
  is_empty, find_first,
}
use disk_manager.Text.{Text, codes, equals, byte_length, split, fields, Replacement, replace_from}
use disk_manager.Block.Blkid.{device_path}
use disk_manager.Host.{Host}

pub record MountEntry : Type 0 where
  pub partition : Text
  pub mountpoint : Text
  pub filesystem_type : Text
  pub options : List Text

-- The replacer's pairs, in its order.
abbrev pub octal_codes : List Replacement
octal_codes =
    (codes "\\011", codes "\t")
    ∷ (codes "\\012", codes "\n")
    ∷ (codes "\\040", codes " ")
    ∷ (codes "\\\\", codes "\\")
    ∷ []

unfoldable pub unescape : Text → Text
unescape mp = replace_from octal_codes 0 mp

unfoldable pub entry_of : List Text → Option MountEntry
entry_of (partition ∷ mp ∷ fs_type ∷ opts ∷ more) = some (record {
  partition = partition;
  mountpoint = unescape mp;
  filesystem_type = fs_type;
  options = split opts (codes ",");
})
entry_of _ = none

-- `parseMountEntry`: a panic, no entry, or an entry
unfoldable pub parse_mount_entry : Text → Option (Option MountEntry)
parse_mount_entry [] = none
parse_mount_entry (c ∷ s) = some (if not (c == b'/') then none else entry_of (fields (c ∷ s)))

unfoldable pub drop_cr : Text → Text
drop_cr [] = []
drop_cr (c ∷ s) =
    let rest = drop_cr s in if is_empty s then (if c == b'\r' then [] else c ∷ []) else c ∷ rest

-- The longest line that fits the buffer of `bufio.Scanner`, with its newline.
abbrev token_limit : ℕ
token_limit = 65535

-- The tokens of `bufio.Scanner` with `ScanLines`: no token behind the last newline, and none from
-- a line on that does not fit the scanner's buffer of 64 KiB.
unfoldable pub tokens : List Text → List Text
tokens [] = []
tokens (line ∷ lines) =
    let rest = tokens lines in
    if is_empty lines && is_empty line
    then []
    else if ltb token_limit (byte_length line)
    then []
    else drop_cr line ∷ rest

unfoldable pub scan_lines : Text → List Text
scan_lines contents = tokens (split contents (codes "\n"))

-- Mount point, file system type and read-only flag
abbrev pub MountInfo : Type 0
MountInfo = Text × Text × Bool

abbrev pub not_mounted : MountInfo
not_mounted = ([], [], true)

abbrev pub is_read_only : List Text → Bool
is_read_only options = elim (find_first (λ o. equals o (codes "rw")) options) [
  | none ↦ true
  | some o ↦ false
]

-- The loop over the lines.
unfoldable pub find_mount : Text → List Text → Option MountInfo
find_mount part [] = some not_mounted
find_mount part (line ∷ lines) =
    let rest = find_mount part lines in
    elim (parse_mount_entry line) [
      | none ↦ none
      | some none ↦ rest
      | some (some e) ↦
          if equals e.partition part
          then some (e.mountpoint, e.filesystem_type, is_read_only e.options)
          else rest
    ]

-- `partitionInfo`
unfoldable pub partition_info : (H : Host) → H.State → Text → Option MountInfo
partition_info H s part = elim (H.read_file s H.paths.proc_mounts) [
  | none ↦ some not_mounted
  | some contents ↦ find_mount (device_path part) (scan_lines contents)
]

-- ===== src/Block/Mounts/Found.antt =====
-- `partitionInfo` on the text of a list of mounts.
use mathlib.Core.List.{Memᴰ}
use disk_manager.Base.{
  ◌≡◌, ◌↔◌, sym, false, none, some, List, [], ◌∷◌, ◌++◌, arith, Bool-cases, find_first, inl, inr,
}
use disk_manager.Text.{Text, codes, equals}
use disk_manager.Text.Prefix.{equals_iff}
use disk_manager.Host.{Host}
use disk_manager.Block.Mounts.{MountEntry, MountInfo, not_mounted, is_read_only}
use disk_manager.Block.Mounts.Lines.{render}

-- A mount is read-only exactly when "rw" is not among its options.
pub is_read_only_iff :
    (options : List Text) → (is_read_only options ≡ false) ↔ Memᴰ (codes "rw") options
is_read_only_iff options = (read_write options, writable options)
  where
    read_write : (os : List Text) → is_read_only os ≡ false → Memᴰ (codes "rw") os
    read_write [] h = absurd (cc)
    read_write (o ∷ os) h = elim (Bool-cases (equals o (codes "rw"))) [
      | inl e ↦ Memᴰ.head (sym ((equals_iff o (codes "rw")).0 e))
      | inr e ↦ Memᴰ.tail (read_write os (ground arith))
    ]

    writable : (os : List Text) → Memᴰ (codes "rw") os → is_read_only os ≡ false
    writable [] m = elim m [ ]
    writable (o ∷ os) (Memᴰ.head e) = ground (arith, (equals_iff o (codes "rw")).1 (sym e))
    writable (o ∷ os) (Memᴰ.tail m) = ground (arith, writable os m)

-- The file /proc/mounts for a list of mounts.
abbrev pub mounts_text : List MountEntry → Text
mounts_text [] = []
mounts_text (e ∷ es) = render e ++ b'\n' ∷ mounts_text es

-- What the first mount of a device says.
abbrev pub mount_of : Text → List MountEntry → MountInfo
mount_of device es = elim (find_first (λ e. equals e.partition device) es) [
  | none ↦ not_mounted
  | some e ↦ (e.mountpoint, e.filesystem_type, is_read_only e.options)
]

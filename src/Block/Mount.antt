-- ===== src/Block/Mount.antt =====
-- pkg/block/mount_linux.go
use disk_manager.Base.{ℕ, ◌+◌, Bool, Option, none, some, [], ◌∷◌, ◌++◌, if◌then◌else◌}
use disk_manager.Text.{Text, codes, join_with}
use disk_manager.Host.{Host}

abbrev pub ext4_mount_options : Text
ext4_mount_options = join_with (codes ",") (
    codes "journal_checksum"
    ∷ codes "journal_ioprio=0"
    ∷ codes "barrier=1"
    ∷ codes "errors=remount-ro"
    ∷ [])

-- `syscall.MS_RELATIME` and `syscall.MS_RDONLY`: different bits, so that `|` is a sum.
abbrev pub ms_relatime : ℕ
ms_relatime = 0x200000

abbrev pub ms_rdonly : ℕ
ms_rdonly = 1

-- `os.NewSyscallError`
abbrev pub syscall_error : Text → Option Text → Option Text
syscall_error call none = none
syscall_error call (some message) = some (call ++ (codes ": " ++ message))

unfoldable pub mount_ext4 : (H : Host) → Text → Text → Bool → H.State → Option Text × H.State
mount_ext4 H device path readonly s =
    let flags = if readonly then ms_relatime + ms_rdonly else ms_relatime in
    let (e, s') = H.mount device path (codes "ext4") flags ext4_mount_options s in
    (syscall_error (codes "mount") e, s')

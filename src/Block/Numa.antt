-- ===== src/Block/Numa.antt =====
-- pkg/block/block_device.go: `diskNUMANodeID`, with its loop over the link's target.
pub mod Answers
use disk_manager.Base.{
  ℕ, zero, suc, Bool, true, false, Option, none, some, [], ◌∷◌, if◌then◌else◌, ℤ, negsuc,
}
use disk_manager.Text.{Text, codes, has_prefix}
use disk_manager.Text.Number.{atoi}
use disk_manager.Path.{join, base}
use disk_manager.Host.{Host}

-- `if nodeInt, err := strconv.Atoi(…); err != nil { return nodeInt }`, or the next round
unfoldable pub return_on_error : ℤ × Bool → Option ℤ → Option ℤ
return_on_error (n, true) again = some n
return_on_error (n, false) again = again

-- The answer -1.
abbrev pub no_node : ℤ
no_node = negsuc 0

module _ (H : Host) (s : H.State) where
  -- The rounds on fuel; `none` is fuel that ran out. A failed read has no contents.
  unfoldable pub numa_loop : ℕ → Text → Option ℤ
  numa_loop zero partial = none
  numa_loop (suc fuel) partial =
      let again = numa_loop fuel (base partial) in
      if has_prefix partial (codes "../devices/")
      then elim (H.read_file s (join (H.paths.sys_block ∷ partial ∷ codes "numa_node" ∷ []))) [
        | none ↦ return_on_error (atoi []) again
        | some contents ↦ again
      ]
      else some no_node

  -- Two rounds are enough fuel.
  unfoldable pub disk_numa_node_id : Text → ℤ
  disk_numa_node_id disk = elim (H.read_link s (join (H.paths.sys_block ∷ disk ∷ []))) [
    | none ↦ no_node
    | some link ↦ elim (numa_loop 2 link) [ none ↦ no_node | some n ↦ n ]
  ]

-- ===== src/Block/Numa/Answers.antt =====
-- The answers of `diskNUMANodeID`, and the end of its loop.
use disk_manager.Base.{
  ℕ, suc, ◌≡◌, refl, ◌⊎◌, inl, inr, false, none, some, [], ◌∷◌, arith, pos, if◌then◌else◌,
}
use disk_manager.Text.{Text, codes, has_prefix}
use disk_manager.Text.Number.{atoi}
use disk_manager.Text.Prefix.{Lacks}
use disk_manager.Path.{join, base}
use disk_manager.Path.Elements.{base_cases}
use disk_manager.Host.{Host}
use disk_manager.Block.Numa.{numa_loop, disk_numa_node_id, no_node, return_on_error}

has_prefix-Lacks : (s : Text) → Lacks b'/' s → has_prefix s (codes "../devices/") ≡ false
unfolding has_prefix
has_prefix-Lacks [] h = refl
has_prefix-Lacks (a ∷ []) h = ground arith
has_prefix-Lacks (a ∷ b ∷ []) h = ground arith
has_prefix-Lacks (a ∷ b ∷ c ∷ s) h = ground arith

-- The last element of a path is no path into the devices directory.
base-devices : (p : Text) → has_prefix (base p) (codes "../devices/") ≡ false
base-devices p = elim (base_cases p) [
  | inl e ↦ rw e (unfold has_prefix in refl)
  | inr l ↦ has_prefix-Lacks (base p) l
]

module _ (H : Host) (s : H.State) where
  -- The loop ends in two rounds, whatever the link and the files are. Its answer is 0 where the link
  -- leads into the devices directory and the file numa_node cannot be read, and -1 elsewhere.
  pub numa_loop_lem :
      (fuel : ℕ) (link : Text)
      → numa_loop H s (suc (suc fuel)) link
        ≡ some (
            if has_prefix link (codes "../devices/")
            then elim (H.read_file s (join (H.paths.sys_block ∷ link ∷ codes "numa_node" ∷ []))) [
              | none ↦ pos 0
              | some contents ↦ no_node
            ]
            else no_node)
  unfolding numa_loop return_on_error atoi
  numa_loop_lem fuel link = ground (arith, base-devices link)

  -- If the disk's link can be read, the answer is -1 or 0, and a file numa_node that can be read
  -- gives -1, whatever it holds.
  pub disk_numa_node_id_answers :
      (disk link : Text)
      → H.read_link s (join (H.paths.sys_block ∷ disk ∷ [])) ≡ some link
      → ((disk_numa_node_id H s disk ≡ no_node) ⊎ (disk_numa_node_id H s disk ≡ pos 0))
        × ((contents : Text)
            → H.read_file s (join (H.paths.sys_block ∷ link ∷ codes "numa_node" ∷ []))
              ≡ some contents
            → disk_numa_node_id H s disk ≡ no_node)
  unfolding disk_numa_node_id
  disk_numa_node_id_answers disk link h =
      (ground (arith, numa_loop_lem 0 link), λ contents r. ground (arith, numa_loop_lem 0 link))

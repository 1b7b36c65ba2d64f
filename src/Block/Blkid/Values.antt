-- ===== src/Block/Blkid/Values.antt =====
-- What is read of the output of blkid.
use disk_manager.Base.{
  ℕ, ◌≡◌, ◌≢◌, refl, ap, ◌∙◌, some, [], ◌∷◌, ◌++◌, arith, append-nil, All-append, is_empty, false,
}
use disk_manager.Text.{Text, codes, is_space, trim_space, remove_all}
use disk_manager.Text.Prefix.{Lacks}
use disk_manager.Text.Splitting.{split-append, split-Lacks}
use disk_manager.Text.Trimming.{trim_space-between, remove_all-Lacks, remove_all-append}
use disk_manager.Host.{Host}
use disk_manager.Block.Blkid.{
  fs_type, device_path, tag_value, read_tag, get_file_system_type, get_disk_uuid,
}

is_empty-middle : (s : Text) (c : ℕ) (t : Text) → is_empty (s ++ c ∷ t) ≡ false
is_empty-middle [] c t = refl
is_empty-middle (d ∷ s) c t = refl

-- A value as blkid prints it behind a tag.
abbrev pub quoted : Text → Text
quoted v = b'"' ∷ v ++ codes "\"\n"

remove_all-quotes : (v : Text) → Lacks b'"' v → remove_all b'"' (b'"' ∷ v ++ b'"' ∷ []) ≡ v
unfolding remove_all
remove_all-quotes v h =
    remove_all-append b'"' v (b'"' ∷ [])
    ∙ append-nil (remove_all b'"' v)
    ∙ remove_all-Lacks b'"' v h

trim_space-quoted : (v : Text) → trim_space (quoted v) ≡ b'"' ∷ v ++ b'"' ∷ []
unfolding is_space
trim_space-quoted v = trim_space-between b'"' b'"' v (b'\n' ∷ []) refl refl (refl, tt)

tag_value-quoted : (before v : Text) → Lacks b'"' v → tag_value (before ∷ quoted v ∷ []) ≡ v
unfolding tag_value
tag_value-quoted before v h = ap (remove_all b'"') (trim_space-quoted v) ∙ remove_all-quotes v h

module _ (h : ℕ) (t : Text) (not_quote : b'"' ≢ h) (not_end : b'\n' ≢ h) where
  quoted-Lacks : (v : Text) → Lacks h v → Lacks h (quoted v)
  quoted-Lacks v hv = (not_quote, All-append (λ c. c ≢ h) v _ hv (not_quote, (not_end, tt)))

  read_tag-quoted :
      (before v : Text)
      → Lacks h before
      → Lacks h v
      → Lacks b'"' v
      → read_tag (h ∷ t) (some (before ++ (h ∷ t ++ quoted v))) ≡ v
  unfolding read_tag
  read_tag-quoted before v hb hv hq =
      rw
        (
          is_empty-middle before h (t ++ quoted v),
          split-append h t before (quoted v) hb,
          split-Lacks h t (quoted v) (quoted-Lacks v hv),
        )
        (tag_value-quoted before v hq)

module _ (H : Host) (s : H.State) (part : Text) where
  -- If blkid prints a tag whose name ends in UUID with a quoted value, neither the value nor what
  -- stands before UUID has the letter U, and the value has no quote, the value is returned.
  pub get_disk_uuid-quoted :
      (uuid_type before v : Text)
      → H.output s (codes "blkid" ∷ codes "-s" ∷ uuid_type ∷ device_path part ∷ [])
        ≡ some (before ++ (codes "UUID=" ++ quoted v))
      → Lacks b'U' before
      → Lacks b'U' v
      → Lacks b'"' v
      → get_disk_uuid H s part uuid_type ≡ v
  unfolding get_disk_uuid
  get_disk_uuid-quoted uuid_type before v e hb hv hq =
      rw e (read_tag-quoted b'U' (codes "UID=") (omega arith) (omega arith) before v hb hv hq)

  -- If blkid prints the tag TYPE with a quoted value, neither the value nor what stands before
  -- TYPE has the letter T, and the value has no quote, the value is returned.
  pub get_file_system_type-quoted :
      (before v : Text)
      → H.output s (codes "blkid" ∷ codes "-s" ∷ fs_type ∷ device_path part ∷ [])
        ≡ some (before ++ (codes "TYPE=" ++ quoted v))
      → Lacks b'T' before
      → Lacks b'T' v
      → Lacks b'"' v
      → get_file_system_type H s part ≡ v
  unfolding get_file_system_type
  get_file_system_type-quoted before v e hb hv hq =
      rw e (read_tag-quoted b'T' (codes "YPE=") (omega arith) (omega arith) before v hb hv hq)

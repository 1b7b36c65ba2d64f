-- ===== src/Block/Mounts/Lines.antt =====
-- A mount entry as a line of text, and the reading of that line.
use disk_manager.Base.{
  ℕ, ◌≤◌, ◌≡◌, ◌≢◌, refl, ap, ◌∙◌, true, some, List, [], ◌∷◌, ◌++◌, arith, ◌==◌, if◌then◌else◌, All,
}
use disk_manager.Text.{
  Text, codes, has_prefix, is_space, fields, split, join_with, replace_from, byte_length,
}
use disk_manager.Text.Prefix.{Lacks}
use disk_manager.Text.Splitting.{split-join_with}
use disk_manager.Text.Trimming.{Solid}
use disk_manager.Text.Words.{fields-cons}
use disk_manager.Block.Mounts.{MountEntry, unescape, entry_of, parse_mount_entry}

-- One character of a mount point, as getmntent encodes it.
abbrev pub escape_char : ℕ → Text
escape_char c =
    if c == b'\t'
    then codes "\\011"
    else if c == b'\n'
    then codes "\\012"
    else if c == b' '
    then codes "\\040"
    else if c == b'\\'
    then codes "\\\\"
    else c ∷ []

abbrev pub escape : Text → Text
escape [] = []
escape (c ∷ s) = escape_char c ++ escape s

unescape-escape_char : (c : ℕ) (rest : Text) → unescape (escape_char c ++ rest) ≡ c ∷ unescape rest
unfolding unescape replace_from has_prefix
unescape-escape_char c rest = ground arith

-- A mount point is read back from its escaped form, whatever characters it has.
pub unescape-escape : (mp : Text) → unescape (escape mp) ≡ mp
unescape-escape [] = unfold unescape replace_from in refl
unescape-escape (c ∷ mp) = unescape-escape_char c (escape mp) ∙ ap (◌∷◌ c) (unescape-escape mp)

-- The line of an entry in /proc/mounts, with the two numbers at its end.
abbrev pub render : MountEntry → Text
render e =
    e.partition
    ++ b' '
      ∷ (escape e.mountpoint
          ++ b' ' ∷ (e.filesystem_type ++ b' ' ∷ (join_with (codes ",") e.options ++ codes " 0 0")))

-- No space inside a field, no field empty, no comma inside an option, and the length of a line that
-- the scanner takes.
pub record IsPrintable (e : MountEntry) : Type 0 where
  pub rooted : has_prefix e.partition (codes "/") ≡ true
  pub partition_solid : Solid e.partition
  pub mountpoint_solid : Solid (escape e.mountpoint)
  pub mountpoint_ne_nil : e.mountpoint ≢ []
  pub type_solid : Solid e.filesystem_type
  pub type_ne_nil : e.filesystem_type ≢ []
  pub options_solid : Solid (join_with (codes ",") e.options)
  pub options_ne_nil : join_with (codes ",") e.options ≢ []
  pub options_lack_comma : All (Lacks b',') e.options
  pub short : byte_length (render e) ≤ 65535

escape-ne-nil : (mp : Text) → mp ≢ [] → escape mp ≢ []
escape-ne-nil [] ne = absurd (ne refl)
escape-ne-nil (c ∷ mp) ne = ground arith

prefix-ne-nil : (p : Text) → has_prefix p (codes "/") ≡ true → p ≢ []
unfolding has_prefix
prefix-ne-nil [] h = cc
prefix-ne-nil (c ∷ p) h = cc

fields-render :
    (e : MountEntry)
    → IsPrintable e
    → fields (render e)
      ≡ e.partition
        ∷ escape e.mountpoint
        ∷ e.filesystem_type
        ∷ join_with (codes ",") e.options
        ∷ codes "0"
        ∷ codes "0"
        ∷ []
fields-render e p =
    rw
      (
        fields-cons e.partition _ p.partition_solid (prefix-ne-nil e.partition p.rooted),
        fields-cons (escape e.mountpoint) _ p.mountpoint_solid
            (escape-ne-nil e.mountpoint p.mountpoint_ne_nil),
        fields-cons e.filesystem_type _ p.type_solid p.type_ne_nil,
        fields-cons (join_with (codes ",") e.options) (codes "0 0") p.options_solid
            p.options_ne_nil,
      )
      (unfold fields is_space in refl)

-- The empty list of options is written as one empty option, which is not printable.
options-split :
    (options : List Text)
    → join_with (codes ",") options ≢ []
    → All (Lacks b',') options
    → split (join_with (codes ",") options) (codes ",") ≡ options
options-split [] ne h = absurd (ne refl)
options-split (o ∷ os) ne h = split-join_with b',' o os h

slash-append :
    (p rest : Text) → has_prefix p (codes "/") ≡ true → has_prefix (p ++ rest) (codes "/") ≡ true
unfolding has_prefix
slash-append [] rest h = absurd (cc)
slash-append (c ∷ p) rest h = ground arith

parse_mount_entry_of_slash :
    (line : Text)
    → has_prefix line (codes "/") ≡ true
    → parse_mount_entry line ≡ some (entry_of (fields line))
unfolding parse_mount_entry has_prefix
parse_mount_entry_of_slash [] h = absurd (cc)
parse_mount_entry_of_slash (c ∷ s) h = ground arith

-- A printable entry is read back from its line.
pub parse_mount_entry-render :
    (e : MountEntry) → IsPrintable e → parse_mount_entry (render e) ≡ some (some e)
parse_mount_entry-render e p =
    rw
      (
        parse_mount_entry_of_slash (render e) (slash-append e.partition _ p.rooted),
        fields-render e p,
      )
      (unfold entry_of in
        rw (
          unescape-escape e.mountpoint,
          options-split e.options p.options_ne_nil p.options_lack_comma,
        ))

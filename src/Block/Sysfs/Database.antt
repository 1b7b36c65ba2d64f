-- ===== src/Block/Sysfs/Database.antt =====
-- The udev database, written as lines and read back.
use disk_manager.Base.{
  ◌≡◌, refl, ◌∙◌, ap, false, some, none, Option, List, [], ◌∷◌, ◌++◌, map, arith, All,
  if◌then◌else◌,
}
use disk_manager.Text.{Text, codes, equals, has_prefix, join_with, trim_space}
use disk_manager.Text.Prefix.{Lacks}
use disk_manager.Text.Splitting.{split-join_with, split_two-append}
use disk_manager.Labels.{Labels, lookup, insert}
use disk_manager.Labels.Laws.{lookup-insert}
use disk_manager.Path.{join}
use disk_manager.Host.{Host}
use disk_manager.Block.Sysfs.{
  add_udev_line, add_udev_lines, first_key, key_of, udev_info, disk_serial_number, disk_bus_path,
  disk_wwn, disk_model,
}

-- A line of the database: an entry, or a line of another kind.
pub data Line : Type 0 where
  entry : Text → Text → Line
  other : Text → Line

abbrev pub line_of : Line → Text
line_of (entry k v) = codes "E:" ++ (k ++ b'=' ∷ v)
line_of (other t) = t

-- A key has no equals sign, a line has no line feed, and a line of another kind does not look like
-- an entry.
abbrev pub IsLine : Line → Type 0
IsLine (entry k v) = Lacks b'=' k × Lacks b'\n' (line_of (entry k v))
IsLine (other t) = (has_prefix t (codes "E:") ≡ false) × Lacks b'\n' t

-- The value that the lines give a key at last, or the one from before.
abbrev pub last_value : Text → List Line → Option Text → Option Text
last_value k [] before = before
last_value k (entry j v ∷ ls) before = last_value k ls (if equals j k then some v else before)
last_value k (other t ∷ ls) before = last_value k ls before

add_udev_line-entry :
    (info : Labels) (k v : Text)
    → Lacks b'=' k
    → add_udev_line info (line_of (entry k v)) ≡ insert k v info
unfolding add_udev_line has_prefix
add_udev_line-entry info k v h = ground (arith, split_two-append b'=' k v h)

add_udev_line-other :
    (info : Labels) (t : Text) → has_prefix t (codes "E:") ≡ false → add_udev_line info t ≡ info
unfolding add_udev_line
add_udev_line-other info t h = ground arith

lookup-add_udev_lines :
    (k : Text) (ls : List Line) (info : Labels)
    → All IsLine ls
    → lookup k (add_udev_lines info (map line_of ls)) ≡ last_value k ls (lookup k info)
unfolding add_udev_lines
lookup-add_udev_lines k [] info h = refl
lookup-add_udev_lines k (entry j v ∷ ls) info ((hj, hl), hs) =
    ap (λ i. lookup k (add_udev_lines i (map line_of ls))) (add_udev_line-entry info j v hj)
    ∙ lookup-add_udev_lines k ls (insert j v info) hs
    ∙ ap (last_value k ls) (lookup-insert j k v info)
lookup-add_udev_lines k (other t ∷ ls) info ((ht, hl), hs) =
    ap (λ i. lookup k (add_udev_lines i (map line_of ls))) (add_udev_line-other info t ht)
    ∙ lookup-add_udev_lines k ls info hs

lines-Lack : (ls : List Line) → All IsLine ls → All (Lacks b'\n') (map line_of ls)
lines-Lack [] h = tt
lines-Lack (entry k v ∷ ls) ((hk, hl), hs) = (hl, lines-Lack ls hs)
lines-Lack (other t ∷ ls) ((ht, hl), hs) = (hl, lines-Lack ls hs)

-- The first of the two that there is, or the constant for the unknown.
abbrev pub or_else : Option Text → Text → Text
or_else none t = t
or_else (some v) t = v

module _ (H : Host) (s : H.State) (disk : Text) where
  udev_info-lookup :
      (dev_no : Text) (l : Line) (ls : List Line)
      → All IsLine (l ∷ ls)
      → H.read_file s (join (H.paths.sys_block ∷ disk ∷ codes "dev" ∷ [])) ≡ some dev_no
      → H.read_file s (join (H.paths.run_udev_data ∷ (b'b' ∷ trim_space dev_no) ∷ []))
        ≡ some (join_with (codes "\n") (map line_of (l ∷ ls)))
      → (info : Labels) × (udev_info H s disk ≡ some info)
        × ((k : Text) → lookup k info ≡ last_value k (l ∷ ls) none)
  unfolding udev_info
  udev_info-lookup dev_no l ls h dev content = (
    add_udev_lines [] (map line_of (l ∷ ls)),
    ground (arith, split-join_with b'\n' (line_of l) (map line_of ls) (lines-Lack (l ∷ ls) h)),
    λ k. lookup-add_udev_lines k (l ∷ ls) [] h ∙ ap (last_value k (l ∷ ls)) (unfold lookup in refl),
  )

  abbrev last : Text → Line → List Line → Option Text
  last key l ls = last_value key (l ∷ ls) none

  one_key :
      (info : Labels) (l : Line) (ls : List Line)
      → ((k : Text) → lookup k info ≡ last k l ls)
      → (a : Text) → key_of H.unknown (a ∷ []) (some info) ≡ or_else (last a l ls) H.unknown
  unfolding key_of first_key
  one_key info l ls values a = ground (arith, values a)

  two_keys :
      (info : Labels) (l : Line) (ls : List Line)
      → ((k : Text) → lookup k info ≡ last k l ls)
      → (a b : Text)
      → key_of H.unknown (a ∷ b ∷ []) (some info)
        ≡ or_else (last a l ls) (or_else (last b l ls) H.unknown)
  unfolding key_of first_key
  two_keys info l ls values a b = ground (arith, values a, values b)

  -- For a database written as lines, the serial number, the bus path, the model and the world wide
  -- name are the values that the lines give their keys at last: the serial number and the name prefer
  -- their first key, and each is the unknown constant where no line has a key.
  pub attributes_from_database :
      (dev_no : Text) (l : Line) (ls : List Line)
      → All IsLine (l ∷ ls)
      → H.read_file s (join (H.paths.sys_block ∷ disk ∷ codes "dev" ∷ [])) ≡ some dev_no
      → H.read_file s (join (H.paths.run_udev_data ∷ (b'b' ∷ trim_space dev_no) ∷ []))
        ≡ some (join_with (codes "\n") (map line_of (l ∷ ls)))
      → (disk_serial_number H s disk
          ≡ or_else
              (last (codes "ID_SERIAL_SHORT") l ls)
              (or_else (last (codes "ID_SERIAL") l ls) H.unknown))
        × (disk_bus_path H s disk ≡ or_else (last (codes "ID_PATH") l ls) H.unknown)
        × (disk_model H s disk ≡ or_else (last (codes "ID_MODEL") l ls) H.unknown)
        × (disk_wwn H s disk
            ≡ or_else
                (last (codes "ID_WWN_WITH_EXTENSION") l ls)
                (or_else (last (codes "ID_WWN") l ls) H.unknown))
  unfolding disk_serial_number disk_bus_path disk_wwn disk_model
  attributes_from_database dev_no l ls h dev content =
      let (info, read, values) = udev_info-lookup dev_no l ls h dev content in
      (
        ap (key_of _ _) read ∙ two_keys info l ls values _ _,
        ap (key_of _ _) read ∙ one_key info l ls values _,
        ap (key_of _ _) read ∙ one_key info l ls values _,
        ap (key_of _ _) read ∙ two_keys info l ls values _ _,
      )

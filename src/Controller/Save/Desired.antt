-- ===== src/Controller/Save/Desired.antt =====
-- What a device that is saved should become: against the list of the objects there are.
use mathlib.Core.List.{Memᴰ}
use disk_manager.Base.{◌≡◌, sym, ap, ◌∙◌, none, some, List, [], ◌∷◌, arith, Bool-cases, inl, inr}
use disk_manager.Text.{Text, equals}
use disk_manager.Text.Prefix.{equals_iff}
use disk_manager.Api.{BlockDevice}
use disk_manager.Controller.Save.{find_existing}

abbrev pub name_of : BlockDevice → Text
name_of bd = bd.object_meta.name

-- How a listed object becomes what is written, from the scanned device.
abbrev pub Merge : Type 0
Merge = BlockDevice → BlockDevice → BlockDevice

-- What a device should become: itself if its name is new, and otherwise the listed object with the
-- scanned parts in it.
abbrev pub desired : Merge → List BlockDevice → BlockDevice → BlockDevice
desired merge items bd = elim (find_existing bd items) [ none ↦ bd | some e ↦ merge e bd ]

pub find_existing-Memᴰ :
    (bd : BlockDevice) (items : List BlockDevice) {e : BlockDevice}
    → find_existing bd items ≡ some e
    → Memᴰ e items × (name_of e ≡ name_of bd)
unfolding find_existing
find_existing-Memᴰ bd [] h = cc
find_existing-Memᴰ bd (x ∷ items) {e} h = elim (Bool-cases (equals (name_of x) (name_of bd))) [
  | inl same ↦
      let here : x ≡ e = ground arith in
      (Memᴰ.head (sym here), ap name_of (sym here) ∙ (equals_iff (name_of x) (name_of bd)).0 same)
  | inr other ↦ let (m, n) = find_existing-Memᴰ bd items {e = e} (ground arith) in (Memᴰ.tail m, n)
]

pub desired-new :
    (merge : Merge) (items : List BlockDevice) (bd : BlockDevice)
    → find_existing bd items ≡ none
    → bd ≡ desired merge items bd
desired-new merge items bd new = ground arith

pub desired-old :
    (merge : Merge) (items : List BlockDevice) (bd e : BlockDevice)
    → find_existing bd items ≡ some e
    → merge e bd ≡ desired merge items bd
desired-old merge items bd e old = ground arith

-- ===== src/Controller/Save/Parts.antt =====
-- The parts of a saved device, one by one: which come from the device that is given, and which from the
-- object that was listed.
use disk_manager.Base.{
  ◌≡◌, ◌≢◌, sym, ap, subst, Option, none, some, List, All, All_of_Memᴰ, All-Memᴰ,
}
use disk_manager.Text.{Text}
use disk_manager.Host.{Host}
use disk_manager.Api.{BlockDevice, BlockDeviceSpec}
use disk_manager.Cluster.{Cluster, ApiError}
use disk_manager.Cluster.Laws.{IsLawful, Holds}
use disk_manager.Effects.{Run, done}
use disk_manager.World.{World}
use disk_manager.Controller.Save.{find_existing, with_status, with_spec_and_status}
use disk_manager.Controller.Save.Desired.{name_of, desired-new, desired-old}
use disk_manager.Controller.Save.Stored.{stored, Saves}

-- An object with this specification and the given device's status, and with the labels, the state and
-- the conditions that were listed.
pub record Updated (e listed bd : BlockDevice) (spec : BlockDeviceSpec) : Type 0 where
  pub spec_is : e.spec ≡ spec
  pub device_status : e.status.device_status ≡ bd.status.device_status
  pub labels : e.object_meta.labels ≡ listed.object_meta.labels
  pub state : e.status.state ≡ listed.status.state
  pub conditions : e.status.conditions ≡ listed.status.conditions

-- What is stored for a device: what was given, if no object of its name was listed, and else the listed
-- object with a specification and the device's status.
abbrev pub StoredAs :
    (BlockDevice → BlockDeviceSpec) → List BlockDevice → Option BlockDevice → BlockDevice → Type 0
StoredAs spec_of items found bd =
    (find_existing bd items ≡ none → Holds found bd)
    × ((listed : BlockDevice)
        → find_existing bd items ≡ some listed
        → (e : BlockDevice) × (found ≡ some e) × Updated e listed bd (spec_of listed))

-- A scan keeps the specification that was listed.
abbrev pub spec_listed : BlockDevice → BlockDeviceSpec
spec_listed listed = listed.spec

pub Holds-scanned :
    (items : List BlockDevice) (bd : BlockDevice) (found : Option BlockDevice)
    → Holds found (elim (find_existing bd items) [ none ↦ bd | some e ↦ with_status e bd ])
    → StoredAs spec_listed items found bd
Holds-scanned items bd found h = (
  λ new. subst (Holds found) (sym (desired-new with_status items bd new)) h,
  λ listed old.
      let (e, at, same) =
        subst (Holds found) (sym (desired-old with_status items bd listed old)) h in
      (
        e,
        at,
        record {
          spec_is = same.spec;
          device_status = ap (λ s. s.device_status) same.status;
          labels = same.labels;
          state = ap (λ s. s.state) same.status;
          conditions = ap (λ s. s.conditions) same.status;
        },
      ),
)

-- An event writes the specification too.
pub Holds-saved :
    (items : List BlockDevice) (bd : BlockDevice) (found : Option BlockDevice)
    → Holds found (elim (find_existing bd items) [ none ↦ bd | some e ↦ with_spec_and_status e bd ])
    → StoredAs (λ listed. bd.spec) items found bd
Holds-saved items bd found h = (
  λ new. subst (Holds found) (sym (desired-new with_spec_and_status items bd new)) h,
  λ listed old.
      let (e, at, same) =
        subst (Holds found) (sym (desired-old with_spec_and_status items bd listed old)) h in
      (
        e,
        at,
        record {
          spec_is = same.spec;
          device_status = ap (λ s. s.device_status) same.status;
          labels = same.labels;
          state = ap (λ s. s.state) same.status;
          conditions = ap (λ s. s.conditions) same.status;
        },
      ),
)

module _ (H : Host) (C : Cluster) (L : IsLawful C) (ns : Text) where
  -- A run that has ended and, if it returned no error, has stored the devices; in any case it left
  -- alone all names but theirs.
  abbrev pub Stores :
      (BlockDevice → BlockDevice → BlockDeviceSpec)
      → List BlockDevice
      → List BlockDevice
      → World H C
      → Run (Option ApiError × World H C)
      → Type 0
  Stores spec_of items bds w run =
      (failed : Option ApiError) × (w' : World H C) × (run ≡ done (failed, w'))
      × (failed ≡ none
          → All (λ bd. StoredAs (spec_of bd) items (stored H C L ns w' (name_of bd)) bd) bds)
      × ((n : Text) → All (λ bd. n ≢ name_of bd) bds → stored H C L ns w' n ≡ stored H C L ns w n)

  pub Saves-scanned :
      (items bds : List BlockDevice) (w : World H C) (run : Run (Option ApiError × World H C))
      → Saves H C L ns with_status items bds w run
      → Stores (λ bd. spec_listed) items bds w run
  Saves-scanned items bds w run (failed, w', ran, saved, others) = (
    failed,
    w',
    ran,
    λ ok.
        All_of_Memᴰ (λ bd. StoredAs spec_listed items (stored H C L ns w' (name_of bd)) bd) bds
          (λ bd m. Holds-scanned items bd (stored H C L ns w' (name_of bd)) (
            All-Memᴰ
              (λ b.
                Holds (stored H C L ns w' (name_of b))
                  (elim (find_existing b items) [ none ↦ b | some e ↦ with_status e b ]))
              bd bds m (saved ok))),
    others,
  )

-- ===== src/Controller/Save/Stored.antt =====
-- What `SaveBlockDevice` and `SaveBlockDeviceByList` leave in the cluster.
use mathlib.Core.List.{Memᴰ}
use disk_manager.Base.{
  ◌≡◌, ◌≢◌, refl, sym, ap, subst, ◌∙◌, Option, none, some, List, [], ◌∷◌, arith, Bool-cases,
  Option-cases, inl, inr, All, true, false,
}
use disk_manager.Text.{Text}
use disk_manager.Host.{Host}
use disk_manager.Api.{BlockDevice}
use disk_manager.Api.Equal.{deep_equal}
use disk_manager.Api.Equal.Sound.{deep_equal_sound}
use disk_manager.Cluster.{Cluster, ApiError}
use disk_manager.Cluster.Laws.{IsLawful, Holds, SamePayload}
use disk_manager.Effects.{Run, done}
use disk_manager.World.{World}
use disk_manager.Controller.Save.{
  find_existing, with_status, with_spec_and_status, save_block_device, save_block_device_by_list,
  update, create, dynamic_equal,
}
use disk_manager.Controller.Save.Desired.{
  name_of, Merge, desired, find_existing-Memᴰ, desired-new, desired-old,
}

SamePayload-self : (bd : BlockDevice) → SamePayload bd bd
SamePayload-self bd = ground arith

module _ (H : Host) (C : Cluster) (L : IsLawful C) (ns : Text) where
  abbrev pub stored : World H C → Text → Option BlockDevice
  stored w n = L.object w.cluster ns n

  abbrev pub Listed : BlockDevice → Type 0
  Listed e = e.object_meta.namespace ≡ ns

  -- A run that has ended, with what it did for the devices if it returned no error; in any case it
  -- left alone all names but theirs.
  abbrev pub Saves :
      Merge
      → List BlockDevice
      → List BlockDevice
      → World H C
      → Run (Option ApiError × World H C)
      → Type 0
  Saves merge items bds w run =
      (failed : Option ApiError) × (w' : World H C) × (run ≡ done (failed, w'))
      × (failed ≡ none → All (λ bd. Holds (stored w' (name_of bd)) (desired merge items bd)) bds)
      × ((n : Text) → All (λ bd. n ≢ name_of bd) bds → stored w' n ≡ stored w n)

  abbrev pub with_cluster : World H C → C.State → World H C
  with_cluster w c = record w { cluster = c }

  -- The two calls that save a device, as runs.
  abbrev pub created : BlockDevice → World H C → Run (Option ApiError × World H C)
  created bd w = done ((C.create bd w.cluster).0.error, with_cluster w (C.create bd w.cluster).1)

  abbrev pub updated : BlockDevice → World H C → Run (Option ApiError × World H C)
  updated bd w = done ((C.update bd w.cluster).0.error, with_cluster w (C.update bd w.cluster).1)

  created-Saves :
      (merge : Merge) (items : List BlockDevice) (bd : BlockDevice) (w : World H C)
      → Listed bd
      → find_existing bd items ≡ none
      → Saves merge items (bd ∷ []) w (created bd w)
  created-Saves merge items bd w here new = (
    (C.create bd w.cluster).0.error,
    with_cluster w (C.create bd w.cluster).1,
    refl,
    λ ok. (
      subst (Holds (L.object (C.create bd w.cluster).1 ns (name_of bd)))
          (desired-new merge items bd new)
          (subst (λ m. Holds (L.object (C.create bd w.cluster).1 m (name_of bd)) bd) here
            (L.create-object bd w.cluster ok)),
      tt,
    ),
    λ n fresh. L.create-other bd w.cluster ns n fresh.0,
  )

  -- `o` is what is written: it has the name of `bd`.
  updated-Saves :
      (merge : Merge) (items : List BlockDevice) (bd o : BlockDevice) (w : World H C)
      → Listed o
      → name_of o ≡ name_of bd
      → o ≡ desired merge items bd
      → Saves merge items (bd ∷ []) w (updated o w)
  updated-Saves merge items bd o w here same wanted =
      let c = C.update o w.cluster in
      (
        c.0.error,
        with_cluster w c.1,
        refl,
        λ ok. (
          subst (Holds (L.object c.1 ns (name_of bd))) wanted (
              subst (λ n. Holds (L.object c.1 ns n) o) same
                (subst (λ m. Holds (L.object c.1 m (name_of o)) o) here
                  (L.update-object o w.cluster ok))),
          tt,
        ),
        λ n fresh. L.update-other o w.cluster ns n (λ clash. fresh.0 (clash ∙ same)),
      )

  save_old :
      (items : List BlockDevice) (bd e : BlockDevice) (w : World H C)
      → find_existing bd items ≡ some e
      → save_block_device_by_list H C bd items w ≡ updated (with_status e bd) w
  unfolding save_block_device_by_list update dynamic_equal
  save_old items bd e w old = ground arith

  pub save_new :
      (items : List BlockDevice) (bd : BlockDevice) (w : World H C)
      → find_existing bd items ≡ none
      → (save_block_device_by_list H C bd items w ≡ created bd w)
        × (save_block_device H C bd items w ≡ created bd w)
  unfolding save_block_device_by_list save_block_device create
  save_new items bd w new = (ground arith, ground arith)

  -- `SaveBlockDeviceByList`, for a list of objects of the namespace.
  pub save_block_device_by_list-Saves :
      (items : List BlockDevice) (bd : BlockDevice) (w : World H C)
      → ((e : BlockDevice) → Memᴰ e items → Listed e)
      → Listed bd
      → Saves with_status items (bd ∷ []) w (save_block_device_by_list H C bd items w)
  save_block_device_by_list-Saves items bd w listed here =
      elim (Option-cases (find_existing bd items)) [
        | inl new ↦
            subst (Saves with_status items (bd ∷ []) w) (sym (save_new items bd w new).0)
              (created-Saves with_status items bd w here new)
        | inr (e, old) ↦
            let (member, same) = find_existing-Memᴰ bd items old in
            subst (Saves with_status items (bd ∷ []) w) (sym (save_old items bd e w old)) (
              updated-Saves with_status items bd (with_status e bd) w (listed e member) same
                (desired-old with_status items bd e old))
      ]

  kept-Saves :
      (items : List BlockDevice) (bd e : BlockDevice) (w : World H C)
      → find_existing bd items ≡ some e
      → stored w (name_of bd) ≡ some e
      → deep_equal e bd ≡ true
      → Saves with_spec_and_status items (bd ∷ []) w (done (none, w))
  kept-Saves items bd e w old there equal =
      let (one_spec, one_status) = deep_equal_sound e bd equal in
      let same : e ≡ with_spec_and_status e bd =
        ground (arith, ap (λ s. s.device_status) one_status) in
      let payload =
        subst (SamePayload e) (same ∙ desired-old with_spec_and_status items bd e old)
          (SamePayload-self e) in
      (none, w, refl, λ ok. ((e, there, payload), tt), λ n fresh. refl)

  pub save_changed :
      (items : List BlockDevice) (bd e : BlockDevice) (w : World H C)
      → find_existing bd items ≡ some e
      → deep_equal e bd ≡ false
      → save_block_device H C bd items w ≡ updated (with_spec_and_status e bd) w
  unfolding save_block_device update dynamic_equal
  save_changed items bd e w old differs = ground arith

  pub save_equal :
      (items : List BlockDevice) (bd e : BlockDevice) (w : World H C)
      → find_existing bd items ≡ some e
      → deep_equal e bd ≡ true
      → save_block_device H C bd items w ≡ done (none, w)
  unfolding save_block_device dynamic_equal
  save_equal items bd e w old equal = ground arith

  -- The same as below, of the one object that is found by the name.
  pub save_found-Saves :
      (items : List BlockDevice) (bd : BlockDevice) (w : World H C)
      → ((e : BlockDevice) → find_existing bd items ≡ some e → stored w (name_of e) ≡ some e)
      → Listed bd
      → Saves with_spec_and_status items (bd ∷ []) w (save_block_device H C bd items w)
  save_found-Saves items bd w current here = elim (Option-cases (find_existing bd items)) [
    | inl new ↦
        subst (Saves with_spec_and_status items (bd ∷ []) w) (sym (save_new items bd w new).1)
          (created-Saves with_spec_and_status items bd w here new)
    | inr (e, old) ↦
        let (member, same) = find_existing-Memᴰ bd items old in
        elim (Bool-cases (deep_equal e bd)) [
          | inl equal ↦
              subst (Saves with_spec_and_status items (bd ∷ []) w)
                (sym (save_equal items bd e w old equal))
                (kept-Saves items bd e w old (subst (λ n. stored w n ≡ some e) same (current e old))
                  equal)
          | inr differs ↦
              subst (Saves with_spec_and_status items (bd ∷ []) w)
                (sym (save_changed items bd e w old differs))
                (updated-Saves with_spec_and_status items bd (with_spec_and_status e bd) w
                  (L.object-key w.cluster ns (name_of e) e (current e old)).0 same
                  (desired-old with_spec_and_status items bd e old))
        ]
  ]

  -- `SaveBlockDevice` always ends, for a list of objects as the cluster has them. If it returns no
  -- error, the object of the device's name has the labels it was listed with, if it was, and the
  -- specification and the device status of the given device, also where nothing had to be written.
  -- Other names are left alone, also after an error.
  pub save_block_device-Saves :
      (items : List BlockDevice) (bd : BlockDevice) (w : World H C)
      → ((e : BlockDevice) → Memᴰ e items → stored w (name_of e) ≡ some e)
      → Listed bd
      → Saves with_spec_and_status items (bd ∷ []) w (save_block_device H C bd items w)
  save_block_device-Saves items bd w current here =
      save_found-Saves items bd w (λ e old. current e (find_existing-Memᴰ bd items old).0) here

-- ===== src/Controller/Delete/Effect.antt =====
-- Which objects the two deletion handlers remove. The cache that they list may be older than the
-- cluster, and an object with finalizers stays until they are gone.
use disk_manager.Base.{
  ◌≡◌, ◌≢◌, refl, sym, subst, ◌∙◌, true, false, Option, none, some, List, [], ◌∷◌, arith,
  Bool-cases, Option-cases, inl, inr, All, All-Memᴰ, All_of_Memᴰ,
}
use disk_manager.Text.{Text, equals}
use disk_manager.Text.Prefix.{equals_iff}
use disk_manager.Labels.{Labels, includes}
use disk_manager.Host.{Host}
use disk_manager.Api.{BlockDevice, Node}
use disk_manager.Cluster.{Cluster, ApiError, Reply}
use disk_manager.Cluster.Laws.{IsLawful, IsGone}
use disk_manager.Effects.{Run, done}
use disk_manager.World.{World}
use disk_manager.Devices.Labelled.{children_of, devices_of}
use disk_manager.Controller.Delete.{
  delete_all, delete_selected, on_block_device_delete, on_node_delete,
}

module _ (H : Host) (C : Cluster) (L : IsLawful C) (ns : Text) where
  abbrev stored : World H C → Text → Option BlockDevice
  stored w n = L.object w.cluster ns n

  -- what the informer has of the name
  abbrev pub cached_in : World H C → Text → Option BlockDevice
  cached_in w n = L.cached w.cluster ns n

  abbrev name_of : BlockDevice → Text
  name_of bd = bd.object_meta.name

  -- A loop that has ended, and if it met no error has deleted the names of the list; no other name
  -- is touched.
  abbrev Removes : List BlockDevice → World H C → Run (Option ApiError × World H C) → Type 0
  Removes bds w run =
      (failed : Option ApiError) × (w' : World H C) × (run ≡ done (failed, w'))
      × (failed ≡ none → (n : Text) → IsGone (stored w n) → IsGone (stored w' n))
      × (failed ≡ none → All (λ bd. IsGone (stored w' (name_of bd))) bds)
      × ((n : Text) → All (λ bd. n ≢ name_of bd) bds → stored w' n ≡ stored w n)

  abbrev after_delete : BlockDevice → World H C → World H C
  after_delete bd w = record w { cluster = (C.delete ns (name_of bd) w.cluster).1 }

  -- A successful deletion brings no name back.
  delete-IsGone :
      (bd : BlockDevice) (w : World H C) (n : Text)
      → (C.delete ns (name_of bd) w.cluster).0 ≡ none
      → IsGone (stored w n)
      → IsGone (stored (after_delete bd w) n)
  delete-IsGone bd w n ok gone = elim (Bool-cases (equals n (name_of bd))) [
    | inl same ↦
        subst (λ m. IsGone (stored (after_delete bd w) m))
          (sym ((equals_iff n (name_of bd)).0 same)) (L.delete-object ns (name_of bd) w.cluster ok)
    | inr other ↦
        subst IsGone
          (sym (
            L.delete-other ns (name_of bd) w.cluster ns n
              (λ e. ground (arith, (equals_iff n (name_of bd)).1 e))))
          gone
  ]

  delete_all-Removes :
      (bds : List BlockDevice) (w : World H C) → Removes bds w (delete_all H C ns bds w)
  unfolding delete_all
  delete_all-Removes [] w = (none, w, refl, λ ok n e. e, λ ok. tt, λ n f. refl)
  delete_all-Removes (bd ∷ bds) w = elim (Option-cases (C.delete ns (name_of bd) w.cluster).0) [
    | inr (e, failed) ↦ (
      some e,
      after_delete bd w,
      ground arith,
      λ ok. absurd (cc),
      λ ok. absurd (cc),
      λ n f. L.delete-other ns (name_of bd) w.cluster ns n f.0,
    )
    | inl ok ↦
        let (failed, w', ran, keeps, gone, others) = delete_all-Removes bds (after_delete bd w) in
        (
          failed,
          w',
          ground arith,
          λ fine n e. keeps fine n (delete-IsGone bd w n ok e),
          λ fine.
              (keeps fine (name_of bd) (L.delete-object ns (name_of bd) w.cluster ok), gone fine),
          λ n f. others n f.1 ∙ L.delete-other ns (name_of bd) w.cluster ns n f.0,
        )
  ]

  -- A run that has ended, and if it met no error has deleted every object that the set selects in the
  -- cache; every name of which the cache has no object that the set selects is as it was.
  abbrev pub Selects : Labels → World H C → Option ApiError → World H C → Type 0
  Selects set w failed w' =
      (failed ≡ none
        → (n : Text) (e : BlockDevice) → cached_in w n ≡ some e
        → includes set e.object_meta.labels ≡ true
        → IsGone (stored w' n))
      × ((n : Text)
          → ((e : BlockDevice) → cached_in w n ≡ some e → includes set e.object_meta.labels ≡ false)
          → stored w' n ≡ stored w n)

  module _ (set : Labels) (w : World H C) where
    abbrev listing : Reply (List BlockDevice)
    listing = (C.cache_list ns set w.cluster).0

    abbrev after_list : World H C
    after_list = record w { cluster = (C.cache_list ns set w.cluster).1 }

    -- A listed object is selected, so it has not the name of one that is not.
    not-listed :
        (n : Text)
        → listing.error ≡ none
        → ((e : BlockDevice) → cached_in w n ≡ some e → includes set e.object_meta.labels ≡ false)
        → All (λ bd. n ≢ name_of bd) listing.value
    not-listed n fine kept =
        All_of_Memᴰ (λ bd. n ≢ name_of bd) listing.value
          λ bd m clash.
            let (there, chosen) = L.cache_list-object ns set w.cluster bd fine m in
            let same : cached_in w n ≡ some bd =
              subst (λ k. cached_in w k ≡ some bd) (sym clash) there in
            let other = kept bd same in cc

    delete_selected-Selects :
        (failed : Option ApiError) × (w' : World H C) × (delete_selected H C ns set w
          ≡ done (failed, w'))
        × Selects set w failed w'
    unfolding delete_selected
    delete_selected-Selects = elim (Option-cases listing.error) [
      | inr (e, failed) ↦ (
        some e,
        after_list,
        ground arith,
        (λ ok. absurd (cc), λ n kept. L.cache_list-keeps ns set w.cluster ns n),
      )
      | inl fine ↦
          let (failed, w', ran, keeps, gone, others) =
            delete_all-Removes listing.value after_list in
          (
            failed,
            w',
            ground arith,
            (
              λ ok n b at chosen.
                  subst (λ k. IsGone (stored w' k)) (L.cached-key w.cluster ns n b at)
                    (All-Memᴰ (λ bd. IsGone (stored w' (name_of bd))) b listing.value
                      (L.cache_list-complete ns set w.cluster n b fine at chosen) (gone ok)),
              λ n kept.
                  others n (not-listed n fine kept) ∙ L.cache_list-keeps ns set w.cluster ns n,
            ),
          )
    ]

  -- In a cluster that keeps the laws of its interface, whose cache may be older than its objects, the
  -- deletion of a device always ends. It returns the device just when it returns an error; without
  -- one, every object that names the device as its parent in the cache is gone or being deleted. In
  -- any case every name of which the cache has no such object is as it was.
  pub on_block_device_delete-Selects :
      (device : BlockDevice) (w : World H C)
      → (failed : Option ApiError) × (w' : World H C) × (on_block_device_delete H C ns
            (some device)
            w
          ≡ done (((elim failed [ none ↦ none | some e ↦ some device ]), failed), w'))
        × Selects (children_of (name_of device)) w failed w'
  unfolding on_block_device_delete
  on_block_device_delete-Selects device w =
      let (failed, w', ran, chosen) = delete_selected-Selects (children_of (name_of device)) w in
      (failed, w', ground arith, chosen)

  -- In a cluster that keeps the laws of its interface, whose cache may be older than its objects, the
  -- deletion of a node always ends. It returns the node just when it returns an error; without one,
  -- every object with the node's name as its host label in the cache is gone or being deleted. In any
  -- case every name of which the cache has no such object is as it was.
  pub on_node_delete-Selects :
      (node : Node) (w : World H C)
      → (failed : Option ApiError) × (w' : World H C) × (on_node_delete H C ns (some node) w
          ≡ done (((elim failed [ none ↦ none | some e ↦ some node ]), failed), w'))
        × Selects (devices_of node.object_meta.name) w failed w'
  unfolding on_node_delete
  on_node_delete-Selects node w =
      let (failed, w', ran, chosen) =
        delete_selected-Selects (devices_of node.object_meta.name) w in
      (failed, w', ground arith, chosen)

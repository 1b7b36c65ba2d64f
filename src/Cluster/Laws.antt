-- ===== src/Cluster/Laws.antt =====
-- What the controllers rely on of the Kubernetes API, while nobody else writes: a successful call
-- does what it says, and a call about one name leaves the others alone. A list is that of the objects at
-- the time of the call; the cache has a list of its own, which may be older. An object that has been
-- deleted is gone, or has its time of deletion and waits for its finalizers.
-- The resource has no status subresource in manifests: an update writes the status too.
use mathlib.Core.List.{Memᴰ}
use disk_manager.Base.{◌⊎◌, ◌≡◌, ◌≢◌, true, Option, none, some}
use disk_manager.Text.{Text}
use disk_manager.Labels.{Labels, includes}
use disk_manager.Api.{BlockDevice}
use disk_manager.Cluster.{Cluster}

-- The parts that a client writes: the server sets the rest of the metadata.
pub record SamePayload (a b : BlockDevice) : Type 0 where
  pub name : a.object_meta.name ≡ b.object_meta.name
  pub namespace : a.object_meta.namespace ≡ b.object_meta.namespace
  pub labels : a.object_meta.labels ≡ b.object_meta.labels
  pub spec : a.spec ≡ b.spec
  pub status : a.status ≡ b.status

-- Nothing is there but what is being deleted.
abbrev pub IsGone : Option BlockDevice → Type 0
IsGone found = (e : BlockDevice) → found ≡ some e → e.object_meta.deletion_timestamp ≢ none

-- An object is stored with a payload.
abbrev pub Holds : Option BlockDevice → BlockDevice → Type 0
Holds found bd = (obj : BlockDevice) × (found ≡ some obj) × SamePayload obj bd

pub record IsLawful (C : Cluster) : Type 0 where
  -- by namespace and name
  pub object : C.State → Text → Text → Option BlockDevice
  pub object-key :
      (s : C.State) (ns n : Text) (e : BlockDevice)
      → object s ns n ≡ some e
      → (e.object_meta.namespace ≡ ns) × (e.object_meta.name ≡ n)
  pub create-object :
      (bd : BlockDevice) (s : C.State)
      → (C.create bd s).0.error ≡ none
      → Holds (object (C.create bd s).1 bd.object_meta.namespace bd.object_meta.name) bd
  pub create-other :
      (bd : BlockDevice) (s : C.State) (ns n : Text)
      → n ≢ bd.object_meta.name
      → object (C.create bd s).1 ns n ≡ object s ns n
  pub update-object :
      (bd : BlockDevice) (s : C.State)
      → (C.update bd s).0.error ≡ none
      → Holds (object (C.update bd s).1 bd.object_meta.namespace bd.object_meta.name) bd
  pub update-other :
      (bd : BlockDevice) (s : C.State) (ns n : Text)
      → n ≢ bd.object_meta.name
      → object (C.update bd s).1 ns n ≡ object s ns n
  pub delete-object :
      (ns n : Text) (s : C.State)
      → (C.delete ns n s).0 ≡ none
      → IsGone (object (C.delete ns n s).1 ns n)
  pub delete-other :
      (ns n : Text) (s : C.State) (ns' n' : Text)
      → n' ≢ n
      → object (C.delete ns n s).1 ns' n' ≡ object s ns' n'
  pub list-object :
      (ns : Text) (s : C.State) (e : BlockDevice)
      → (C.list ns s).0.error ≡ none
      → Memᴰ e (C.list ns s).0.value
      → object s ns e.object_meta.name ≡ some e
  pub list-keeps :
      (ns : Text) (s : C.State) (ns' n : Text) → object (C.list ns s).1 ns' n ≡ object s ns' n
  -- what the informer has seen, by namespace and name
  pub cached : C.State → Text → Text → Option BlockDevice
  pub cached-key :
      (s : C.State) (ns n : Text) (e : BlockDevice)
      → cached s ns n ≡ some e
      → e.object_meta.name ≡ n
  pub cache_list-object :
      (ns : Text) (set : Labels) (s : C.State) (e : BlockDevice)
      → (C.cache_list ns set s).0.error ≡ none
      → Memᴰ e (C.cache_list ns set s).0.value
      → (cached s ns e.object_meta.name ≡ some e) × (includes set e.object_meta.labels ≡ true)
  pub cache_list-complete :
      (ns : Text) (set : Labels) (s : C.State) (n : Text) (e : BlockDevice)
      → (C.cache_list ns set s).0.error ≡ none
      → cached s ns n ≡ some e
      → includes set e.object_meta.labels ≡ true
      → Memᴰ e (C.cache_list ns set s).0.value
  pub cache_list-keeps :
      (ns : Text) (set : Labels) (s : C.State) (ns' n : Text)
      → object (C.cache_list ns set s).1 ns' n ≡ object s ns' n

-- A call makes nothing up, whether it fails or not: what is stored after it was stored before, or is
-- what the call was given. An update of the status keeps the rest of the object. The cache has the
-- objects of the cluster.
pub record OnlyWrites (C : Cluster) (L : IsLawful C) : Type 0 where
  pub create-only :
      (bd : BlockDevice) (s : C.State) (ns n : Text) (e : BlockDevice)
      → L.object (C.create bd s).1 ns n ≡ some e
      → (L.object s ns n ≡ some e) ⊎ SamePayload e bd
  pub update-only :
      (bd : BlockDevice) (s : C.State) (ns n : Text) (e : BlockDevice)
      → L.object (C.update bd s).1 ns n ≡ some e
      → (L.object s ns n ≡ some e) ⊎ SamePayload e bd
  pub update_status-only :
      (bd : BlockDevice) (s : C.State) (ns n : Text) (e : BlockDevice)
      → L.object (C.update_status bd s).1 ns n ≡ some e
      → (o : BlockDevice) × (L.object s ns n ≡ some o)
        × (e.object_meta.name ≡ o.object_meta.name)
        × (e.object_meta.labels ≡ o.object_meta.labels)
        × (e.spec ≡ o.spec)
  pub delete-only :
      (ns n : Text) (s : C.State) (ns' n' : Text) (e : BlockDevice)
      → L.object (C.delete ns n s).1 ns' n' ≡ some e
      → L.object s ns' n' ≡ some e
  pub cache_get-keeps :
      (ns n : Text) (s : C.State) (ns' n' : Text)
      → L.object (C.cache_get ns n s).1 ns' n' ≡ L.object s ns' n'
  -- also what a list returns beside an error
  pub listed-only :
      (ns : Text) (set : Labels) (s : C.State) (e : BlockDevice)
      → Memᴰ e (C.cache_list ns set s).0.value
      → L.object s ns e.object_meta.name ≡ some e

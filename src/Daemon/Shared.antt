-- ===== src/Daemon/Shared.antt =====
-- The cluster while others act, also inside of each call: other clients, and the other handlers of this
-- daemon, of which several run at once.
use mathlib.Core.List.{Memᴰ}
use disk_manager.Base.{false, [], pos, ◌≡◌, ◌⊎◌, inl, inr, refl, sym, ap, ◌∙◌, Option, none, some}
use disk_manager.Text.{Text, equals}
use disk_manager.Labels.{Labels, lookup}
use disk_manager.Host.{Host, drive_unknown, controller_unknown}
use disk_manager.Api.{BlockDevice}
use disk_manager.Cluster.{Cluster}
use disk_manager.Cluster.Laws.{IsLawful, OnlyWrites}
use disk_manager.Block.Disk.{Disk}
use disk_manager.Devices.{get_new_block_devices, parent_block_device, label_hostname}
use disk_manager.Daemon.Known.{IsOwn, IsForeign, IsKnown, SameIdentity, SamePayload-SameIdentity}

module _ (H : Host) (node ns : Text) where
  -- A device that some run of a handler on this node has made of a disk.
  abbrev pub IsFound : BlockDevice → Type 0
  IsFound e =
      (disk : Disk) × (bd : BlockDevice) × Memᴰ bd (get_new_block_devices H disk node ns)
      × SameIdentity e bd

  -- What may be stored under a name after others have acted: an object that was there, changed at most
  -- in the parts that do not say whose it is; one whose name no device of the node has; or one that
  -- another handler of the daemon has found.
  abbrev pub FromOthers : (Text → Option BlockDevice) → Text → BlockDevice → Type 0
  FromOthers before n e =
      ((o : BlockDevice) × (before n ≡ some o) × SameIdentity e o) ⊎ (IsForeign node e ⊎ IsFound e)

  -- A cluster with other clients. What is stored after a call, and what it lists, comes from others, or
  -- is what the call was given. Nothing is promised of what a call does: an object that was written may
  -- be gone or changed when the call returns.
  pub record Shared (C : Cluster) : Type 0 where
    -- by name, in the namespace
    pub object : C.State → Text → Option BlockDevice
    pub create-only :
        (bd : BlockDevice) (s : C.State) (n : Text) (e : BlockDevice)
        → object (C.create bd s).1 n ≡ some e
        → FromOthers (object s) n e ⊎ SameIdentity e bd
    pub update-only :
        (bd : BlockDevice) (s : C.State) (n : Text) (e : BlockDevice)
        → object (C.update bd s).1 n ≡ some e
        → FromOthers (object s) n e ⊎ SameIdentity e bd
    pub update_status-only :
        (bd : BlockDevice) (s : C.State) (n : Text) (e : BlockDevice)
        → object (C.update_status bd s).1 n ≡ some e
        → FromOthers (object s) n e
    pub delete-only :
        (n : Text) (s : C.State) (n' : Text) (e : BlockDevice)
        → object (C.delete ns n s).1 n' ≡ some e
        → FromOthers (object s) n' e
    pub cache_get-only :
        (n : Text) (s : C.State) (n' : Text) (e : BlockDevice)
        → object (C.cache_get ns n s).1 n' ≡ some e
        → FromOthers (object s) n' e
    pub list-only :
        (s : C.State) (n : Text) (e : BlockDevice)
        → object (C.list ns s).1 n ≡ some e
        → FromOthers (object s) n e
    pub cache_list-only :
        (set : Labels) (s : C.State) (n : Text) (e : BlockDevice)
        → object (C.cache_list ns set s).1 n ≡ some e
        → FromOthers (object s) n e
    pub listed :
        (s : C.State) (e : BlockDevice)
        → (C.list ns s).0.error ≡ none
        → Memᴰ e (C.list ns s).0.value
        → FromOthers (object s) e.object_meta.name e
    -- also what a list returns beside an error
    pub cache_listed :
        (set : Labels) (s : C.State) (e : BlockDevice)
        → Memᴰ e (C.cache_list ns set s).0.value
        → FromOthers (object s) e.object_meta.name e

  SameIdentity-self : (e : BlockDevice) → SameIdentity e e
  SameIdentity-self e = record { name = refl; hostname = refl; node_name = refl; dev_path = refl }

  pub was_there :
      (before : Text → Option BlockDevice) (n : Text) (e : BlockDevice)
      → before n ≡ some e
      → FromOthers before n e
  was_there before n e at = inl (e, at, SameIdentity-self e)

  abbrev disk_named : Text → Disk
  disk_named name = record {
    name = name;
    size_bytes = 0;
    physical_block_size_bytes = 0;
    drive_type = drive_unknown;
    is_removable = false;
    storage_controller = controller_unknown;
    uuid = [];
    pt_uuid = [];
    bus_path = [];
    file_system_info = record { fs_type = []; is_read_only = false; mount_point = [] };
    numa_node_id = pos 0;
    vendor = [];
    model = [];
    serial_number = [];
    wwn = [];
    partitions = [];
  }

  -- The resources of the node are what a handler may find: of a disk of the same name.
  IsOwn-IsFound : (e : BlockDevice) → IsOwn node e → IsFound e
  unfolding get_new_block_devices parent_block_device lookup equals
  IsOwn-IsFound e own = (
    disk_named own.short,
    parent_block_device H (disk_named own.short) node ns,
    Memᴰ.head refl,
    record {
      name = own.name;
      hostname = own.hostname;
      node_name = own.node_name;
      dev_path = own.dev_path;
    },
  )

  pub IsKnown-FromOthers :
      (before : Text → Option BlockDevice) (n : Text) (e : BlockDevice)
      → IsKnown node e
      → FromOthers before n e
  IsKnown-FromOthers before n e (inl own) = inr (inr (IsOwn-IsFound e own))
  IsKnown-FromOthers before n e (inr foreign) = inr (inl foreign)

  -- A cluster in which nobody else writes is one of them.
  pub shared_of : (C : Cluster) (L : IsLawful C) → OnlyWrites C L → Shared C
  shared_of C L W = record {
    object = λ s n. L.object s ns n;
    create-only = λ bd s n e at. elim (W.create-only bd s ns n e at) [
      | inl old ↦ inl (was_there (λ m. L.object s ns m) n e old)
      | inr new ↦ inr (SamePayload-SameIdentity e bd new)
    ];
    update-only = λ bd s n e at. elim (W.update-only bd s ns n e at) [
      | inl old ↦ inl (was_there (λ m. L.object s ns m) n e old)
      | inr new ↦ inr (SamePayload-SameIdentity e bd new)
    ];
    update_status-only = λ bd s n e at.
        let (o, old, name, labels, spec) = W.update_status-only bd s ns n e at in
        inl (
          o,
          old,
          record {
            name = name;
            hostname = ap (lookup label_hostname) labels;
            node_name = ap (λ p. p.node_name) spec;
            dev_path = ap (λ p. p.dev_path) spec;
          },
        );
    delete-only =
        λ n s n' e at. was_there (λ m. L.object s ns m) n' e (W.delete-only ns n s ns n' e at);
    cache_get-only = λ n s n' e at.
        was_there (λ m. L.object s ns m) n' e (sym (W.cache_get-keeps ns n s ns n') ∙ at);
    list-only =
        λ s n e at. was_there (λ m. L.object s ns m) n e (sym (L.list-keeps ns s ns n) ∙ at);
    cache_list-only = λ set s n e at.
        was_there (λ m. L.object s ns m) n e (sym (L.cache_list-keeps ns set s ns n) ∙ at);
    listed = λ s e ok m.
        was_there (λ k. L.object s ns k) e.object_meta.name e (L.list-object ns s e ok m);
    cache_listed = λ set s e m.
        was_there (λ k. L.object s ns k) e.object_meta.name e (W.listed-only ns set s e m);
  }

  pub object-shared_of :
      (C : Cluster) (L : IsLawful C) (W : OnlyWrites C L) (s : C.State) (n : Text)
      → (shared_of C L W).object s n ≡ L.object s ns n
  unfolding shared_of
  object-shared_of C L W s n = refl

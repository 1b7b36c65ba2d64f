-- ===== src/Tests/Generated.antt =====
-- The generated controllers over a client and an indexer in memory.
use disk_manager.Base.{
  ◌≡◌, refl, sym, ap, ◌∙◌, ◌⊎◌, inl, inr, Bool, true, ◌&&◌, Option, none, some, List, [], ◌∷◌,
  arith, Bool-cases, find_first,
}
use disk_manager.Text.{Text, codes, equals}
use disk_manager.Text.Prefix.{equals_iff}
use disk_manager.Labels.{Labels}
use disk_manager.Api.{BlockDevice}
use disk_manager.Cluster.{ApiError, Reply}
use disk_manager.Generated.{Machinery, Lasso}
use disk_manager.Generated.Cache.{object_key, cache_get}
use disk_manager.Generated.Filled.{BlockDeviceList, block_devices, IndexLaws, cache_get-answers}
use disk_manager.Tests.Decide.{no_char, lacks}
use disk_manager.Tests.Memory.{memory, not_found}
use disk_manager.Tests.Controller.{parent, devices, ns}

abbrev machinery : Machinery
machinery = record {
  CreateOptions = Unit;
  UpdateOptions = Unit;
  DeleteOptions = Unit;
  GetOptions = Unit;
  ListOptions = Unit;
  PatchOptions = Unit;
  PatchType = Unit;
  Watch = Unit;
  Selector = Labels;
  create_options = tt;
  update_options = tt;
  delete_options = tt;
  list_options = tt;
  patch_options = tt;
  selector_from_set = λ set. set;
  new_not_found = λ resource n. not_found;
}

abbrev pub no_list : BlockDeviceList Text
no_list = record { list_meta = []; items = [] }

abbrev pairs : {A S : Type 0} → Reply A × S → (A × Option ApiError) × S
pairs (r, s) = ((r.value, r.error), s)

-- The key of an object whose namespace has no slash.
abbrev keyed : Text → BlockDevice → Bool
keyed key e =
    equals key (object_key e.object_meta.namespace e.object_meta.name)
    && no_char b'/' e.object_meta.namespace

abbrev lasso : Lasso (block_devices parent no_list) machinery
lasso = record {
  State = List BlockDevice;
  create = λ n obj r o s. pairs (memory.create obj s);
  update = λ n obj r o s. pairs (memory.update obj s);
  update_status = λ n obj r o s. pairs (memory.update_status obj s);
  delete = λ n name o s. memory.delete n name s;
  get = λ n name r o s. ((r, none), s);
  list = λ n r o s.
      let (l, s') = memory.list n s in ((record { list_meta = []; items = l.value }, l.error), s');
  watch = λ n o s. ((tt, none), s);
  patch = λ n name t d r o l s. ((r, none), s);
  get_by_key = λ key s. ((find_first (keyed key) s, none), s);
  list_all_by_namespace = λ n sel s. pairs (memory.cache_list n sel s);
  by_index = λ index key s. (([], none), s);
  add_indexers = λ index f s. (none, s);
  enqueue = λ n name s. s;
  enqueue_after = λ n name d s. s;
}

keyed-found :
    (key : Text) (s : List BlockDevice) (e : BlockDevice)
    → find_first (keyed key) s ≡ some e
    → keyed key e ≡ true
keyed-found key [] e h = absurd (cc)
keyed-found key (x ∷ s) e h = elim (Bool-cases (keyed key x)) [
  | inl t ↦ let same : x ≡ e = ground arith in ap (keyed key) (sym same) ∙ t
  | inr f ↦ keyed-found key s e (ground arith)
]

lasso-IndexLaws : IndexLaws parent no_list machinery lasso (codes "blockdevices")
lasso-IndexLaws = record {
  stored = λ s key. find_first (keyed key) s;
  get_by_key-stored = λ key s ok. refl;
  stored-key = λ s key e there.
      let k : keyed key e ≡ true = keyed-found key s e there in
      (
        (equals_iff key (object_key e.object_meta.namespace e.object_meta.name)).0 (ground arith),
        lacks b'/' e.object_meta.namespace (ground arith),
      );
  new_not_found-not_found = λ n. refl;
}

cache_get-answers_example :
    let r =
      (cache_get
        (block_devices parent no_list)
        machinery
        lasso
        (codes "blockdevices")
        ns
        (codes "sda")
        devices).0 in
    ((e : BlockDevice) × (r.value ≡ some e)
      × (r.error ≡ none)
      × ((e.object_meta.namespace ≡ ns) × (e.object_meta.name ≡ codes "sda")))
    ⊎ ((f : ApiError) × (r.value ≡ none)
        × (r.error ≡ some f)
        × (((f.not_found ≡ true)
              × (lasso-IndexLaws.stored devices (object_key ns (codes "sda")) ≡ none))
            ⊎ (none ≡ some f)))
cache_get-answers_example =
    cache_get-answers parent no_list machinery lasso (codes "blockdevices") lasso-IndexLaws ns
      (codes "sda") devices (lacks b'/' ns refl)

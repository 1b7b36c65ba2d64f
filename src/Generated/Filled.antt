-- ===== src/Generated/Filled.antt =====
-- The interface of the controllers (Cluster.antt) filled by the generated controller of block devices.
use disk_manager.Base.{
  ◌≡◌, sym, ◌∙◌, ◌⊎◌, inl, inr, true, Option, none, some, List, [], ◌∷◌, ◌++◌, append-nil,
  append_assoc, arith, Option-cases,
}
use disk_manager.Text.{Text}
use disk_manager.Text.Prefix.{Lacks, append_at_inj}
use disk_manager.Api.{BlockDevice}
use disk_manager.Cluster.{Cluster, ApiError}
use disk_manager.Generated.{Resource, Machinery, Lasso}
use disk_manager.Generated.Client.{create, update, update_status, delete, list}
use disk_manager.Generated.Cache.{object_key, append_all, cache_get, cache_list}

-- `BlockDeviceList`; its metadata is apimachinery's.
pub record BlockDeviceList (ListMeta : Type 0) : Type 0 where
  pub list_meta : ListMeta
  pub items : List BlockDevice

pub append_all-lem : {A : Type 0} (xs ys : List A) → append_all xs ys ≡ xs ++ ys
unfolding append_all
append_all-lem xs [] = sym (append-nil xs)
append_all-lem xs (y ∷ ys) = append_all-lem (xs ++ y ∷ []) ys ∙ append_assoc xs (y ∷ []) ys

module _ {ListMeta : Type 0} (empty : BlockDevice) (empty_list : BlockDeviceList ListMeta) where
  abbrev pub block_devices : Resource
  block_devices = record {
    Obj = BlockDevice;
    ObjList = BlockDeviceList ListMeta;
    namespace = λ bd. bd.object_meta.namespace;
    resource_version = λ bd. bd.object_meta.resource_version;
    items = λ l. l.items;
    empty = empty;
    empty_list = empty_list;
  }

  module _ (A : Machinery) (L : Lasso block_devices A) (resource : Text) where
    -- The methods as the controllers call them.
    abbrev pub cluster_of : Cluster
    cluster_of = record {
      State = L.State;
      create = λ bd s. create block_devices A L bd s;
      update = λ bd s. update block_devices A L bd s;
      update_status = λ bd s. update_status block_devices A L bd s;
      delete = λ ns n s. delete block_devices A L ns n (some A.delete_options) s;
      list = λ ns s.
          let (r, s') = list block_devices A L ns A.list_options s in
          (record { value = r.value.items; error = r.error }, s');
      cache_get = λ ns n s. cache_get block_devices A L resource ns n s;
      cache_list = λ ns set s. cache_list block_devices A L resource ns (A.selector_from_set set) s;
    }

    -- What client-go's indexer promises: one object for a key, the key is made of the object's namespace
    -- and name, and no namespace has a slash.
    pub record IndexLaws : Type 0 where
      pub stored : L.State → Text → Option BlockDevice
      pub get_by_key-stored :
          (key : Text) (s : L.State)
          → (L.get_by_key key s).0.1 ≡ none
          → (L.get_by_key key s).0.0 ≡ stored s key
      pub stored-key :
          (s : L.State) (key : Text) (e : BlockDevice)
          → stored s key ≡ some e
          → (key ≡ object_key e.object_meta.namespace e.object_meta.name)
            × Lacks b'/' e.object_meta.namespace
      pub new_not_found-not_found : (n : Text) → (A.new_not_found resource n).not_found ≡ true

    -- Where the indexer keeps its promises, the cache's answer for a namespace without a slash and a
    -- name: the object of just that namespace and name and no error; or no object, and either the
    -- error `NotFound`, and then there is none of that key, or the indexer's error.
    pub cache_get-answers :
        (I : IndexLaws) (ns n : Text) (s : L.State)
        → Lacks b'/' ns
        → let r = (cache_get block_devices A L resource ns n s).0 in
          ((e : BlockDevice) × (r.value ≡ some e)
            × (r.error ≡ none)
            × ((e.object_meta.namespace ≡ ns) × (e.object_meta.name ≡ n)))
          ⊎ ((f : ApiError) × (r.value ≡ none)
              × (r.error ≡ some f)
              × (((f.not_found ≡ true) × (I.stored s (object_key ns n) ≡ none))
                  ⊎ ((L.get_by_key (object_key ns n) s).0.1 ≡ some f)))
    unfolding cache_get
    cache_get-answers I ns n s plain = elim (Option-cases (L.get_by_key (object_key ns n) s).0.1) [
      | inr (f, failed) ↦ inr (f, ground arith, ground arith, inr failed)
      | inl fine ↦
          let same : (L.get_by_key (object_key ns n) s).0.0 ≡ I.stored s (object_key ns n) =
            I.get_by_key-stored (object_key ns n) s fine in
          elim (Option-cases (I.stored s (object_key ns n))) [
            | inl missing ↦ inr (
              A.new_not_found resource n,
              ground arith,
              ground arith,
              inl (I.new_not_found-not_found n, missing),
            )
            | inr (e, there) ↦
                let (key, no_slash) = I.stored-key s (object_key ns n) e there in
                inl (
                  e,
                  ground arith,
                  ground arith,
                  append_at_inj b'/' e.object_meta.namespace ns e.object_meta.name n no_slash plain
                      (sym key),
                )
          ]
    ]

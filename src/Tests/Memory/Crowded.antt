-- ===== src/Tests/Memory/Crowded.antt =====
-- A cluster in which others act once before the effect of each call.
use disk_manager.Base.{◌≡◌, ◌⊎◌, inl, inr, ◌∙◌, some, sym, refl}
use disk_manager.Text.{Text}
use disk_manager.Host.{Host}
use disk_manager.Api.{BlockDevice}
use disk_manager.Cluster.{Cluster}
use disk_manager.Daemon.Known.{SameIdentity}
use disk_manager.Daemon.Shared.{Shared, FromOthers}

module _ (C : Cluster) (others : C.State → C.State) where
  abbrev pub crowded : Cluster
  crowded = record {
    State = C.State;
    create = λ bd s. C.create bd (others s);
    update = λ bd s. C.update bd (others s);
    update_status = λ bd s. C.update_status bd (others s);
    delete = λ ns n s. C.delete ns n (others s);
    list = λ ns s. C.list ns (others s);
    cache_get = λ ns n s. C.cache_get ns n (others s);
    cache_list = λ ns set s. C.cache_list ns set (others s);
  }

  module _ (H : Host) (node ns : Text) (S : Shared H node ns C)
      (allowed : (s : C.State) (n : Text) (e : BlockDevice)
        → S.object (others s) n ≡ some e
        → FromOthers H node ns (S.object s) n e) where
    SameIdentity-trans :
        (a b c : BlockDevice) → SameIdentity a b → SameIdentity b c → SameIdentity a c
    SameIdentity-trans a b c p q = record {
      name = p.name ∙ q.name;
      hostname = p.hostname ∙ q.hostname;
      node_name = p.node_name ∙ q.node_name;
      dev_path = p.dev_path ∙ q.dev_path;
    }

    before_too :
        (s : C.State) (n : Text) (e : BlockDevice)
        → FromOthers H node ns (S.object (others s)) n e
        → FromOthers H node ns (S.object s) n e
    before_too s n e (inr new) = inr new
    before_too s n e (inl (o, at, same)) = elim (allowed s n o at) [
      | inl (b, there, as_before) ↦ inl (b, there, SameIdentity-trans e o b same as_before)
      | inr (inl foreign) ↦ inr (inl (λ short clash. foreign short (sym same.name ∙ clash)))
      | inr (inr (disk, bd, member, found)) ↦
          inr (inr (disk, bd, member, SameIdentity-trans e o bd same found))
    ]

    written_too :
        (s : C.State) (n : Text) (e bd : BlockDevice)
        → FromOthers H node ns (S.object (others s)) n e ⊎ SameIdentity e bd
        → FromOthers H node ns (S.object s) n e ⊎ SameIdentity e bd
    written_too s n e bd (inl old) = inl (before_too s n e old)
    written_too s n e bd (inr new) = inr new

    pub crowded-Shared : Shared H node ns crowded
    crowded-Shared = record {
      object = S.object;
      create-only = λ bd s n e at. written_too s n e bd (S.create-only bd (others s) n e at);
      update-only = λ bd s n e at. written_too s n e bd (S.update-only bd (others s) n e at);
      update_status-only =
          λ bd s n e at. before_too s n e (S.update_status-only bd (others s) n e at);
      delete-only = λ m s n e at. before_too s n e (S.delete-only m (others s) n e at);
      cache_get-only = λ m s n e at. before_too s n e (S.cache_get-only m (others s) n e at);
      list-only = λ s n e at. before_too s n e (S.list-only (others s) n e at);
      cache_list-only = λ set s n e at. before_too s n e (S.cache_list-only set (others s) n e at);
      listed = λ s e ok m. before_too s e.object_meta.name e (S.listed (others s) e ok m);
      cache_listed =
          λ set s e m. before_too s e.object_meta.name e (S.cache_listed set (others s) e m);
    }

    pub object-crowded : (s : C.State) (n : Text) → crowded-Shared.object s n ≡ S.object s n
    unfolding crowded-Shared
    object-crowded s n = refl

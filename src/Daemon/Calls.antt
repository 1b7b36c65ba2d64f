-- ===== src/Daemon/Calls.antt =====
-- The calls of the cluster keep every object of the namespace known, whatever others do meanwhile.
use mathlib.Core.List.{Memᴰ}
use disk_manager.Base.{ℕ, ◌≡◌, inl, inr, some, none, List, All-Memᴰ}
use disk_manager.Text.{Text}
use disk_manager.Labels.{Labels}
use disk_manager.Host.{Host}
use disk_manager.Api.{BlockDevice}
use disk_manager.Cluster.{Cluster}
use disk_manager.World.{World, call, act, sleep}
use disk_manager.Devices.{get_new_block_devices}
use disk_manager.Daemon.Ensures.{Ensures}
use disk_manager.Daemon.Known.{
  IsOwn, IsKnown, IsOwn-identity, IsKnown-identity, get_new_block_devices-IsOwn,
}
use disk_manager.Daemon.Shared.{Shared, FromOthers}

abbrev pub Any : {A : Type 0} → A → Type 0
Any a = Unit

module _ (H : Host) (C : Cluster) (ns node : Text) (S : Shared H node ns C) where
  -- Every object of the namespace is the node's or foreign to it.
  abbrev pub AllKnown : World H C → Type 0
  AllKnown w = (n : Text) (e : BlockDevice) → S.object w.cluster n ≡ some e → IsKnown node e

  abbrev pub AllListed : List BlockDevice → Type 0
  AllListed items = (e : BlockDevice) → Memᴰ e items → IsKnown node e

  pub FromOthers-IsKnown :
      (w : World H C) (n : Text) (e : BlockDevice)
      → AllKnown w
      → FromOthers H node ns (S.object w.cluster) n e
      → IsKnown node e
  FromOthers-IsKnown w n e i (inl (o, at, same)) = IsKnown-identity node e o same (i n o at)
  FromOthers-IsKnown w n e i (inr (inl foreign)) = inr foreign
  FromOthers-IsKnown w n e i (inr (inr (disk, bd, member, same))) =
      let own =
        All-Memᴰ (IsOwn node) bd (get_new_block_devices H disk node ns) member
          (get_new_block_devices-IsOwn node H ns disk) in
      inl (IsOwn-identity node e bd same own)

  pub act-AllKnown :
      {A : Type 0} (f : H.State → A × H.State) → Ensures AllKnown Any (act {H = H} {C = C} f)
  act-AllKnown f w i = (i, tt)

  pub sleep-AllKnown : (d : ℕ) → Ensures AllKnown Any (sleep {H = H} {C = C} d)
  sleep-AllKnown d w i = (i, tt)

  pub create-AllKnown :
      (bd : BlockDevice) → IsKnown node bd → Ensures AllKnown Any (call {H = H} (C.create bd))
  create-AllKnown bd known w i = (
    λ n e at. elim (S.create-only bd w.cluster n e at) [
      | inl others ↦ FromOthers-IsKnown w n e i others
      | inr same ↦ IsKnown-identity node e bd same known
    ],
    tt,
  )

  pub update-AllKnown :
      (bd : BlockDevice) → IsKnown node bd → Ensures AllKnown Any (call {H = H} (C.update bd))
  update-AllKnown bd known w i = (
    λ n e at. elim (S.update-only bd w.cluster n e at) [
      | inl others ↦ FromOthers-IsKnown w n e i others
      | inr same ↦ IsKnown-identity node e bd same known
    ],
    tt,
  )

  pub update_status-AllKnown :
      (bd : BlockDevice) → Ensures AllKnown Any (call {H = H} (C.update_status bd))
  update_status-AllKnown bd w i =
      (λ n e at. FromOthers-IsKnown w n e i (S.update_status-only bd w.cluster n e at), tt)

  pub delete-AllKnown : (n : Text) → Ensures AllKnown Any (call {H = H} (C.delete ns n))
  delete-AllKnown n w i =
      (λ n' e at. FromOthers-IsKnown w n' e i (S.delete-only n w.cluster n' e at), tt)

  pub cache_get-AllKnown : (n : Text) → Ensures AllKnown Any (call {H = H} (C.cache_get ns n))
  cache_get-AllKnown n w i =
      (λ n' e at. FromOthers-IsKnown w n' e i (S.cache_get-only n w.cluster n' e at), tt)

  pub list-AllKnown :
      Ensures AllKnown (λ r. r.error ≡ none → AllListed r.value) (call {H = H} (C.list ns))
  list-AllKnown w i = (
    λ n e at. FromOthers-IsKnown w n e i (S.list-only w.cluster n e at),
    λ ok e m. FromOthers-IsKnown w e.object_meta.name e i (S.listed w.cluster e ok m),
  )

  pub cache_list-AllKnown :
      (set : Labels)
      → Ensures AllKnown (λ r. AllListed r.value) (call {H = H} (C.cache_list ns set))
  cache_list-AllKnown set w i = (
    λ n e at. FromOthers-IsKnown w n e i (S.cache_list-only set w.cluster n e at),
    λ e m. FromOthers-IsKnown w e.object_meta.name e i (S.cache_listed set w.cluster e m),
  )

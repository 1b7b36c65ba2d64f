-- ===== src/Generated/Client.antt =====
-- pkg/generated/controllers/longhorn.io/v1beta1/blockdevice.go: the methods of the client. The object
-- that is passed is not nil.
use disk_manager.Base.{Option, none, some, List}
use disk_manager.Text.{Text}
use disk_manager.Cluster.{ApiError, Reply}
use disk_manager.Generated.{Resource, Machinery, Lasso}

abbrev pub reply : {S A : Type 0} → (A × Option ApiError) × S → Reply A × S
reply ((a, e), s) = (record { value = a; error = e }, s)

module _ (R : Resource) (A : Machinery) (L : Lasso R A) where
  -- `Create`
  unfoldable pub create : R.Obj → L.State → Reply R.Obj × L.State
  create obj s = reply (L.create (R.namespace obj) obj R.empty A.create_options s)

  -- `Update`
  unfoldable pub update : R.Obj → L.State → Reply R.Obj × L.State
  update obj s = reply (L.update (R.namespace obj) obj R.empty A.update_options s)

  -- `UpdateStatus`
  unfoldable pub update_status : R.Obj → L.State → Reply R.Obj × L.State
  update_status obj s = reply (L.update_status (R.namespace obj) obj R.empty A.update_options s)

  -- `Delete`
  unfoldable pub delete : Text → Text → Option A.DeleteOptions → L.State → Option ApiError × L.State
  delete namespace name none s = L.delete namespace name A.delete_options s
  delete namespace name (some options) s = L.delete namespace name options s

  -- `Get`
  unfoldable pub get : Text → Text → A.GetOptions → L.State → Reply R.Obj × L.State
  get namespace name options s = reply (L.get namespace name R.empty options s)

  -- `List`
  unfoldable pub list : Text → A.ListOptions → L.State → Reply R.ObjList × L.State
  list namespace opts s = reply (L.list namespace R.empty_list opts s)

  -- `Watch`
  unfoldable pub watch : Text → A.ListOptions → L.State → Reply A.Watch × L.State
  watch namespace opts s = reply (L.watch namespace opts s)

  -- `Patch`
  unfoldable pub patch :
      Text → Text → A.PatchType → Text → List Text → L.State → Reply R.Obj × L.State
  patch namespace name pt data_bytes subresources s =
      reply (L.patch namespace name pt data_bytes R.empty A.patch_options subresources s)

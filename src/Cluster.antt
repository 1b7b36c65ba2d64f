-- ===== src/Cluster.antt =====
-- The Kubernetes API as the program reaches it: the methods of `BlockDeviceController` and
-- `BlockDeviceCache` (pkg/generated) that the source calls. A call may fail, and may take time in
-- which the cluster changes: each takes the cluster's state to a new one.
pub mod Laws
use disk_manager.Base.{Bool, Option, List}
use disk_manager.Text.{Text}
use disk_manager.Labels.{Labels}
use disk_manager.Api.{BlockDevice}

-- An error of the API, with what `errors.IsNotFound` and `errors.IsConflict` say of it.
pub record ApiError : Type 0 where
  pub not_found : Bool
  pub conflict : Bool
  pub message : Text

-- Go's pair of a result and an error.
pub record Reply (A : Type 0) : Type 0 where
  pub value : A
  pub error : Option ApiError

pub record Cluster : Type 1 where
  pub State : Type 0
  pub create : BlockDevice → State → Reply BlockDevice × State
  pub update : BlockDevice → State → Reply BlockDevice × State
  pub update_status : BlockDevice → State → Reply BlockDevice × State
  -- by namespace and name
  pub delete : Text → Text → State → Option ApiError × State
  pub list : Text → State → Reply (List BlockDevice) × State
  pub cache_get : Text → Text → State → Reply (Option BlockDevice) × State
  -- by namespace and the set of a label selector
  pub cache_list : Text → Labels → State → Reply (List BlockDevice) × State

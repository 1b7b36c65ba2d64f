-- ===== src/Generated/Status.antt =====
-- pkg/generated/controllers/longhorn.io/v1beta1/blockdevice.go: the handlers that keep a device's
-- status, and that apply the objects generated for a device.
pub mod Settles
use disk_manager.Base.{Bool, not, Option, none, some, List, [], is_empty, if◌then◌else◌}
use disk_manager.Text.{Text, codes}
use disk_manager.Api.{BlockDevice, BlockDeviceStatus}
use disk_manager.Cluster.{ApiError}
use disk_manager.Effects.{M, pure, ◌>>=◌}
use disk_manager.Generated.Handlers.{
  Result, Handler, GenericHandler, from_handler_to_handler, GroupVersionKind,
}

-- wrangler's `condition.Cond` on a status, by the name of the condition: `SetError` with its reason and
-- error, and `LastUpdated`; and `equality.Semantic.DeepEqual`.
pub record StatusTools : Type 0 where
  pub set_error : Text → Text → Option ApiError → BlockDeviceStatus → BlockDeviceStatus
  pub last_updated : Text → Text → BlockDeviceStatus → BlockDeviceStatus
  pub semantic_equal : BlockDeviceStatus → BlockDeviceStatus → Bool

-- `errors.IsConflict`, false of nil
abbrev pub is_conflict : Option ApiError → Bool
is_conflict none = Bool.false
is_conflict (some e) = e.conflict

-- The first error, if there is one.
abbrev pub first_error : Option ApiError → Option ApiError → Option ApiError
first_error (some e) f = some e
first_error none f = f

-- `BlockDeviceStatusHandler`: the device as the handler leaves it, for it is given a pointer, and the
-- new status with the error.
abbrev pub StatusHandler : Type 0 → Type 0
StatusHandler S = BlockDevice → BlockDeviceStatus → M S (BlockDevice × Result BlockDeviceStatus)

module _ (K : StatusTools) (condition : Text) where
  -- The status that a handler's result amounts to: the old one after an error; the error, unless it is
  -- a conflict, in the condition.
  unfoldable pub reported_status : BlockDeviceStatus → Result BlockDeviceStatus → BlockDeviceStatus
  reported_status orig (new_status, err) =
      let status : BlockDeviceStatus = elim err [ none ↦ new_status | some e ↦ orig ] in
      if is_empty condition
      then status
      else if is_conflict err
      then K.set_error condition [] none status
      else K.set_error condition [] err status

  -- The status that is sent, at the formatted time.
  unfoldable pub stamped_status : Text → BlockDeviceStatus → BlockDeviceStatus
  stamped_status now status =
      if is_empty condition then status else K.last_updated condition now status

  module _ {S : Type 0} (update_status : BlockDevice → M S (Result BlockDevice)) (now : Text)
      (handler : StatusHandler S) where
    -- Behind the handler: `obj` is as it has left it.
    unfoldable pub settle_status :
        BlockDevice
        → BlockDeviceStatus
        → Result BlockDeviceStatus
        → M S (Result (Option BlockDevice))
    settle_status obj orig result =
        let reported = reported_status orig result in
        let sent = record obj { status = stamped_status now reported } in
        if not (K.semantic_equal orig reported)
        then (update_status sent >>= λ u.
            pure (some (elim u.1 [ none ↦ u.0 | some e ↦ sent ]), first_error result.1 u.1))
        else pure (some obj, result.1)

    -- `sync`
    unfoldable pub sync : Text → Option BlockDevice → M S (Result (Option BlockDevice))
    sync key none = pure (none, none)
    sync key (some obj) = handler obj obj.status >>= λ r. settle_status r.0 obj.status r.1

    -- `RegisterBlockDeviceStatusHandler`, by the controller's `AddGenericHandler`
    unfoldable pub register_status_handler :
        {Q : Type 0} → (Text → GenericHandler BlockDevice S → Q → Q) → Text → Q → Q
    register_status_handler add_generic_handler name q =
        add_generic_handler name (from_handler_to_handler sync) q

-- wrangler's `apply`, configured for an owner by `ConfigureApplyForObject`, with the set's name and the
-- objects, over the types of the options and of the objects; and `kv.RSplit`.
pub record Applying (S : Type 0) : Type 1 where
  pub Options : Type 0
  pub Generated : Type 0
  -- the zero value
  pub options : Options
  pub apply_objects :
      GroupVersionKind → BlockDevice → Options → Text → List Generated → S → Option ApiError × S
  pub r_split : Text → Text → Text × Text
  -- `&v1beta1.BlockDevice{}`
  pub empty : BlockDevice

module _ {S : Type 0} (A : Applying S) where
  -- `BlockDeviceGeneratingHandler`
  abbrev pub GeneratingHandler : Type 0
  GeneratingHandler =
      BlockDevice
      → BlockDeviceStatus
      → M S (BlockDevice × (List A.Generated × Result BlockDeviceStatus))

  abbrev apply_all :
      GroupVersionKind → BlockDevice → A.Options → Text → List A.Generated → M S (Option ApiError)
  apply_all gvk obj opts name objs s =
      let (e, s') = A.apply_objects gvk obj opts name objs s in pure e s'

  module _ (name : Text) (gvk : GroupVersionKind) (opts : A.Options) where
    -- `Remove`: for a device that is gone, the empty set is applied.
    unfoldable pub remove_generated : Text → Option BlockDevice → M S (Result (Option BlockDevice))
    remove_generated key (some obj) = pure (some obj, none)
    remove_generated key none =
        let (namespace, obj_name) = A.r_split key (codes "/") in
        let obj = record A.empty {
          object_meta = record A.empty.object_meta { namespace = namespace; name = obj_name };
        } in
        apply_all gvk obj opts name [] >>= λ e. pure (none, e)

    -- `Handle`
    unfoldable pub handle_generated : GeneratingHandler → StatusHandler S
    handle_generated handler obj status = handler obj status >>= λ r. elim r.1.1.1 [
      | some e ↦ pure (r.0, (r.1.1.0, some e))
      | none ↦ apply_all gvk r.0 opts name r.1.0 >>= λ e. pure (r.0, (r.1.1.0, e))
    ]

    -- `RegisterBlockDeviceGeneratingHandler`, from the choice of the options on: `Remove` by the
    -- controller's `OnChange`, and `Handle` as a status handler.
    unfoldable pub register_generating_handler :
        {Q : Type 0}
        → (Text → Handler BlockDevice S → Q → Q)
        → (Text → StatusHandler S → Q → Q)
        → GeneratingHandler
        → Q
        → Q
    register_generating_handler on_change register_status handler q =
        register_status name (handle_generated handler) (on_change name remove_generated q)

  -- `if opts != nil`
  unfoldable pub chosen_options : Option A.Options → A.Options
  chosen_options none = A.options
  chosen_options (some opts) = opts

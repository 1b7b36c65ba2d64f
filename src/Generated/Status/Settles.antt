-- ===== src/Generated/Status/Settles.antt =====
-- What one call of a status handler does.
use disk_manager.Base.{◌≡◌, true, false, Option, none, some, [], is_empty, arith}
use disk_manager.Text.{Text}
use disk_manager.Api.{BlockDevice, BlockDeviceStatus}
use disk_manager.Cluster.{ApiError}
use disk_manager.Effects.{M, done}
use disk_manager.Generated.Handlers.{Result}
use disk_manager.Generated.Status.{
  StatusTools, StatusHandler, first_error, reported_status, stamped_status, settle_status, sync,
}

module _ (K : StatusTools) (condition : Text) {S : Type 0}
    (update_status : BlockDevice → M S (Result BlockDevice)) (now : Text)
    (handler : StatusHandler S) where
  -- The device that is sent for a result of the handler.
  abbrev pub sent : BlockDevice → BlockDeviceStatus → Result BlockDeviceStatus → BlockDevice
  sent obj orig result = record obj {
    status = stamped_status K condition now (reported_status K condition orig result);
  }

  -- The status that is sent for a result: that of the handler or, after an error, the old one; and in
  -- the condition, if there is one, the error, unless it is a conflict, and the time.
  pub record Sends (orig : BlockDeviceStatus) (result : Result BlockDeviceStatus)
      (st : BlockDeviceStatus) : Type 0 where
    pub plain : is_empty condition ≡ true → result.1 ≡ none → st ≡ result.0
    pub plain_error : (e : ApiError) → is_empty condition ≡ true → result.1 ≡ some e → st ≡ orig
    pub fine :
        is_empty condition ≡ false
        → result.1 ≡ none
        → st ≡ K.last_updated condition now (K.set_error condition [] none result.0)
    pub conflict :
        (e : ApiError)
        → is_empty condition ≡ false
        → result.1 ≡ some e
        → e.conflict ≡ true
        → st ≡ K.last_updated condition now (K.set_error condition [] none orig)
    pub error :
        (e : ApiError)
        → is_empty condition ≡ false
        → result.1 ≡ some e
        → e.conflict ≡ false
        → st ≡ K.last_updated condition now (K.set_error condition [] (some e) orig)

  sent-Sends :
      (left : BlockDevice) (orig : BlockDeviceStatus) (result : Result BlockDeviceStatus)
      → Sends orig result (sent left orig result).status
  unfolding stamped_status reported_status
  sent-Sends left orig (st, none) = record {
    plain = λ c ok. ground (arith, c);
    plain_error = λ e c failed. absurd (cc);
    fine = λ c ok. ground (arith, c);
    conflict = λ e c failed k. absurd (cc);
    error = λ e c failed k. absurd (cc);
  }
  sent-Sends left orig (st, some f) = record {
    plain = λ c ok. absurd (cc);
    plain_error = λ e c failed. ground (arith, c);
    fine = λ c ok. absurd (cc);
    conflict = λ e c failed k. ground (arith, c, failed, k);
    error = λ e c failed k. ground (arith, c, failed, k);
  }

  -- When the handler ends with a result that amounts to another status than the device had, and the
  -- update ends, there is that one update, of the device as the handler left it, with the status that is
  -- to be sent: after an error of the handler the old one, with the error in the condition. The call
  -- returns the handler's error if it has one, and else that of the update; after an update without an
  -- error its answer is returned.
  pub sync-sent :
      (key : Text) (obj left : BlockDevice) (result : Result BlockDeviceStatus)
      (u : Result BlockDevice) (s s₁ s₂ : S)
      → handler obj obj.status s ≡ done ((left, result), s₁)
      → K.semantic_equal obj.status (reported_status K condition obj.status result) ≡ false
      → update_status (sent left obj.status result) s₁ ≡ done (u, s₂)
      → (o : Option BlockDevice) × (err : Option ApiError) × (sync K condition update_status now
            handler key
            (some obj)
            s
          ≡ done ((o, err), s₂))
        × Sends obj.status result (sent left obj.status result).status
        × ((e : ApiError) → result.1 ≡ some e → err ≡ some e)
        × (result.1 ≡ none → err ≡ u.1)
        × (u.1 ≡ none → o ≡ some u.0)
  unfolding sync settle_status
  sync-sent key obj left result u s s₁ s₂ ran other answered = (
    some (elim u.1 [ none ↦ u.0 | some e ↦ sent left obj.status result ]),
    first_error result.1 u.1,
    ground (arith, ran, other, answered),
    sent-Sends left obj.status result,
    λ e failed. ground arith,
    λ fine. ground arith,
    λ fine. ground arith,
  )

  -- With a comparison that finds each status equal to itself, an error of the handler without a
  -- condition to keep leaves the cluster as it was, whatever status came with the error, and is returned.
  pub sync-reverts :
      ((st : BlockDeviceStatus) → K.semantic_equal st st ≡ true)
      → (key : Text) (obj left : BlockDevice) (st : BlockDeviceStatus) (e : ApiError) (s s₁ : S)
      → is_empty condition ≡ true
      → handler obj obj.status s ≡ done ((left, (st, some e)), s₁)
      → sync K condition update_status now handler key (some obj) s ≡ done ((some left, some e), s₁)
  unfolding sync settle_status reported_status
  sync-reverts equal key obj left st e s s₁ plain ran = ground (arith, ran, plain, equal obj.status)

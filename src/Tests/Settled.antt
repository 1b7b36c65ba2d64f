-- ===== src/Tests/Settled.antt =====
-- Conditions that are left alone when they are to be written as they are, and a device that is
-- mounted as it asks.
use disk_manager.Base.{
  ◌≡◌, refl, sym, subst, inl, inr, ◌||◌, Bool-cases, Bool, true, false, ◌&&◌, Option, none, some,
  List, [], ◌∷◌, arith, is_empty, if◌then◌else◌,
}
use disk_manager.Text.{Text, codes, equals}
use disk_manager.Text.Prefix.{equals_iff, equals_self}
use disk_manager.Labels.{same}
use disk_manager.Api.{BlockDevice, Condition}
use disk_manager.World.{Toolkit}
use disk_manager.Effects.{done}
use disk_manager.Controller.Change.{report_mounted, on_block_device_change}
use disk_manager.Controller.Change.Mounted.{IsLawful, IsMounted}
use disk_manager.Controller.Change.Settled.{IsSteady, on_block_device_change-settled}
use disk_manager.Tests.Memory.{memory}
use disk_manager.Tests.Node.{node, everything}
use disk_manager.Tests.Changing.{mounted}
use disk_manager.Tests.Controller.{world, devices, status_of, message_of}

abbrev reason_of : Text → List Condition → Text
reason_of name [] = []
reason_of name (c ∷ cs) =
    let rest = reason_of name cs in if equals c.cond_type name then c.reason else rest

abbrev with : Text → Text → Text → Text → List Condition → List Condition
with name status message reason cs =
    record {
      cond_type = name;
      status = status;
      last_update_time = [];
      last_transition_time = [];
      reason = reason;
      message = message;
    }
    ∷ cs

abbrev is_there : Text → List Condition → Bool
is_there name [] = false
is_there name (c ∷ cs) = let rest = is_there name cs in equals c.cond_type name || rest

-- A condition that is not there is added, whatever is written.
abbrev is_written : Text → Text → Text → Text → List Condition → Bool
is_written name status message reason cs =
    is_there name cs
    && equals (status_of name cs) status
    && equals (message_of name cs) message
    && equals (reason_of name cs) reason

abbrev set : Text → Text → Text → Text → List Condition → List Condition
set name status message reason cs =
    if is_written name status message reason cs then cs else with name status message reason cs

-- What is written for an error.
abbrev status_for : Option Text → Text
status_for err = elim err [ none ↦ codes "True" | some e ↦ codes "False" ]

abbrev message_for : Option Text → Text
message_for err = elim err [ none ↦ [] | some e ↦ e ]

abbrev reason_for : Text → Option Text → Text
reason_for reason err = elim err [ none ↦ reason | some e ↦ codes "Error" ]

abbrev steady : Toolkit
steady = record {
  set_status_bool = λ now name b cs.
      set name (if b then codes "True" else codes "False") (message_of name cs) (reason_of name cs)
        cs;
  set_error = λ now name reason err cs.
      set name (status_for err) (message_for err) (reason_for reason err) cs;
  set_message = λ now name message cs. set name (status_of name cs) message (reason_of name cs) cs;
  is_supported_file_system = λ t. equals t (codes "ext4");
}

module _ (name status message reason : Text) (cs : List Condition) where
  abbrev after : List Condition
  after = set name status message reason cs

  status-set : status_of name after ≡ status
  status-set = ground (arith, equals_self name, equals_iff (status_of name cs) status)

  message-set : message_of name after ≡ message
  message-set = ground (arith, equals_self name, equals_iff (message_of name cs) message)

  reason-set : reason_of name after ≡ reason
  reason-set = ground (arith, equals_self name, equals_iff (reason_of name cs) reason)

  set-same :
      is_there name cs ≡ true
      → status_of name cs ≡ status
      → message_of name cs ≡ message
      → reason_of name cs ≡ reason
      → after ≡ cs
  set-same t s m r = ground (
    arith,
    t,
    equals_iff (status_of name cs) status,
    equals_iff (message_of name cs) message,
    equals_iff (reason_of name cs) reason,
  )

has_status :
    (name : Text) (cs : List Condition)
    → is_empty (status_of name cs) ≡ false
    → is_there name cs ≡ true
has_status name [] h = absurd (cc)
has_status name (c ∷ cs) h = elim (Bool-cases (equals c.cond_type name)) [
  | inl here ↦ ground arith
  | inr other ↦ ground (arith, has_status name cs (ground arith))
]

there :
    (name : Text) (cs : List Condition) (status : Text)
    → is_empty status ≡ false
    → status_of name cs ≡ status
    → is_there name cs ≡ true
there name cs status given h = has_status name cs (subst (λ s. is_empty s ≡ false) (sym h) given)

written_status : (b : Bool) → is_empty (if b then codes "True" else codes "False") ≡ false
written_status true = refl
written_status false = refl

error_status : (err : Option Text) → is_empty (status_for err) ≡ false
error_status none = refl
error_status (some e) = refl

steady-IsLawful : IsLawful steady
steady-IsLawful = record {
  status_of = status_of;
  message_of = message_of;
  status-set_error = λ now name reason err cs.
      status-set name (status_for err) (message_for err) (reason_for reason err) cs;
  message-set_error = λ now name reason err cs.
      message-set name (status_for err) (message_for err) (reason_for reason err) cs;
  status-set_message =
      λ now name message cs. status-set name (status_of name cs) message (reason_of name cs) cs;
  message-set_message =
      λ now name message cs. message-set name (status_of name cs) message (reason_of name cs) cs;
}

steady-IsSteady : IsSteady steady steady-IsLawful
unfolding steady-IsLawful
steady-IsSteady = record {
  reason_of = reason_of;
  reason-set_error =
      λ now name err cs. reason-set name (status_for err) (message_for err) (reason_for [] err) cs;
  reason-set_message =
      λ now name message cs. reason-set name (status_of name cs) message (reason_of name cs) cs;
  set_status_bool-same = λ now name b cs s.
      set-same name (if b then codes "True" else codes "False") (message_of name cs)
        (reason_of name cs) cs
        (there name cs (if b then codes "True" else codes "False") (written_status b) s) s refl
        refl;
  set_error-same = λ now name err cs s m r.
      set-same name (status_for err) (message_for err) (reason_for [] err) cs
        (there name cs (status_for err) (error_status err) s) s m r;
  set_message-same = λ now name message cs s m.
      set-same name (status_of name cs) message (reason_of name cs) cs
        (there name cs (codes "False") refl s) refl m refl;
}

-- What the handler wrote at time 7.
abbrev settled : BlockDevice
settled = record mounted {
  object_meta = record mounted.object_meta { resource_version = codes "8" };
  status = (report_mounted steady 7 mounted).status;
}

mounted-IsMounted : IsMounted steady mounted
unfolding everything
mounted-IsMounted = record { in_place = refl; supported = refl }

mounted_asks : is_empty mounted.spec.file_system.mount_point ≡ false
unfolding everything
mounted_asks = refl

mounted_labels : same settled.object_meta.labels settled.object_meta.labels ≡ true
unfolding everything
mounted_labels = refl

settled_alive : settled.object_meta.deletion_timestamp ≡ none
unfolding everything
settled_alive = refl

on_block_device_change-settled_example :
    on_block_device_change node memory steady 9 (some settled) (world devices)
    ≡ done ((none, none), world devices)
on_block_device_change-settled_example =
    on_block_device_change-settled steady steady-IsLawful steady-IsSteady 7 9 mounted settled refl
      refl mounted_asks node memory (world devices) mounted-IsMounted settled_alive mounted_labels

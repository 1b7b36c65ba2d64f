-- ===== src/Tests/Reach.antt =====
-- A reachable world: a start in a cluster where another client acts in each call.
use disk_manager.Base.{◌≡◌, refl, sym, subst, ◌∙◌, inl, inr, some, List, [], ◌∷◌}
use disk_manager.Text.{Text}
use disk_manager.Api.{BlockDevice}
use disk_manager.Cluster.{Cluster}
use disk_manager.Effects.{done}
use disk_manager.World.{World}
use disk_manager.Controller.Delete.{block_device_node_handler_name}
use disk_manager.Controller.Register.{on_change, on_remove, block_device_handler_name}
use disk_manager.Main.{Outcome, started, run}
use disk_manager.Daemon.Known.{IsForeign, IsKnown}
use disk_manager.Daemon.Shared.{Shared, FromOthers, shared_of, object-shared_of, was_there}
use disk_manager.Daemon.Steps.{Reach, Reach-IsKnown}
use disk_manager.Tests.Memory.{memory, memory-IsLawful, memory-object, find_object}
use disk_manager.Tests.Memory.Writes.{first_only, memory-OnlyWrites}
use disk_manager.Tests.Memory.Crowded.{crowded, crowded-Shared, object-crowded}
use disk_manager.Tests.Node.{node, files, everything}
use disk_manager.Tests.Controller.{toolkit, parent, here, ns}
use disk_manager.Tests.Udev.{libraries, options, devices_last}
use disk_manager.Tests.Daemon.{elsewhere, elsewhere-IsForeign}

abbrev quiet : Shared node here ns memory
quiet = shared_of node here ns memory memory-IsLawful memory-OnlyWrites

quiet-object : (s : List BlockDevice) (n : Text) → quiet.object s n ≡ find_object ns n s
quiet-object s n =
    object-shared_of node here ns memory memory-IsLawful memory-OnlyWrites s n
    ∙ memory-object s ns n

-- Somebody writes a resource before each call.
abbrev intrude : List BlockDevice → List BlockDevice
intrude s = elsewhere ∷ s

intrude-allowed :
    (s : List BlockDevice) (n : Text) (e : BlockDevice)
    → quiet.object (intrude s) n ≡ some e
    → FromOthers node here ns (quiet.object s) n e
intrude-allowed s n e at =
    elim (first_only elsewhere e s ns n (sym (quiet-object (intrude s) n) ∙ at)) [
      | inl old ↦ was_there node here ns (quiet.object s) n e (quiet-object s n ∙ old)
      | inr same ↦ inr (inl (subst (IsForeign here) (sym same) elsewhere-IsForeign))
    ]

abbrev busy : Cluster
busy = crowded memory intrude

abbrev busy-Shared : Shared node here ns busy
busy-Shared = crowded-Shared memory intrude node here ns quiet intrude-allowed

busy-object : (s : List BlockDevice) (n : Text) → busy-Shared.object s n ≡ find_object ns n s
busy-object s n =
    object-crowded memory intrude node here ns quiet intrude-allowed s n ∙ quiet-object s n

abbrev busy_world : List BlockDevice → World node busy
busy_world s = record { host = files; cluster = s; slept = [] }

abbrev busy_objects : List BlockDevice
busy_objects = devices_last ∷ elsewhere ∷ parent ∷ elsewhere ∷ elsewhere ∷ []

abbrev all_started : Outcome
all_started = started (
    on_change block_device_handler_name
    ∷ on_remove block_device_handler_name
    ∷ on_remove block_device_node_handler_name
    ∷ [])

busy_start :
    run node busy libraries options (busy_world []) ≡ done (all_started, busy_world busy_objects)
unfolding everything
busy_start = refl

busy_fresh : (n : Text) (e : BlockDevice) → busy-Shared.object [] n ≡ some e → IsForeign here e
busy_fresh n e at = absurd (let h = sym (busy-object [] n) ∙ at in cc)

busy-Reach : Reach node busy toolkit libraries options busy-Shared (busy_world busy_objects)
busy-Reach = Reach.runs (Reach.begin (busy_world []) busy_fresh) all_started busy_start

busy_parent : busy-Shared.object busy_objects parent.object_meta.name ≡ some parent
unfolding everything
busy_parent = busy-object busy_objects parent.object_meta.name ∙ refl

Reach-IsKnown_example : IsKnown here parent
Reach-IsKnown_example =
    Reach-IsKnown node busy toolkit libraries options busy-Shared (busy_world busy_objects)
      busy-Reach parent.object_meta.name parent busy_parent

-- ===== src/Daemon/Steps.antt =====
-- The daemon on a node as a transition system: the start of the program (main.go), the handlers of
-- the two controllers and of the udev events run in any order. Between them, and inside of each call
-- that they make, the rest of the world acts: other clients, and other handlers of the daemon.
use disk_manager.Base.{ℕ, ◌≡◌, subst, Option, some, inr}
use disk_manager.Text.{Text}
use disk_manager.Host.{Host}
use disk_manager.Api.{BlockDevice, Node, Time}
use disk_manager.Cluster.{Cluster, ApiError}
use disk_manager.Effects.{done, M}
use disk_manager.World.{World, Toolkit}
use disk_manager.Controller.Change.{Handled, on_block_device_change}
use disk_manager.Controller.Delete.{on_block_device_delete, on_node_delete}
use disk_manager.Main.Monitoring.{new_udev}
use disk_manager.Main.{Options, Libraries, Outcome, run}
use disk_manager.Udev.Handlers.{UEvent, Settings, action_handler}
use disk_manager.Daemon.Ensures.{Ensures, Ends}
use disk_manager.Daemon.Removing.{on_block_device_delete-AllKnown, on_node_delete-AllKnown}
use disk_manager.Daemon.Known.{IsForeign, IsKnown}
use disk_manager.Daemon.Shared.{Shared, FromOthers, IsKnown-FromOthers}
use disk_manager.Daemon.Calls.{Any, AllKnown, FromOthers-IsKnown}
use disk_manager.Daemon.Changing.{on_block_device_change-AllKnown}
use disk_manager.Daemon.Events.{action_handler-AllKnown}
use disk_manager.Daemon.Starting.{run-AllKnown}

module _ (H : Host) (C : Cluster) (K : Toolkit) (B : Libraries) (opt : Options)
    (S : Shared H opt.node_name opt.namespace C) where
  abbrev pub object_at : World H C → Text → Option BlockDevice
  object_at w = S.object w.cluster

  abbrev pub udev_settings : Settings
  udev_settings = (new_udev opt).settings

  -- What others do: the host and the pauses may be any, and each object comes from them.
  abbrev pub Others : World H C → World H C → Type 0
  Others w w' =
      (n : Text) (e : BlockDevice)
      → object_at w' n ≡ some e
      → FromOthers H opt.node_name opt.namespace (object_at w) n e

  -- The worlds that are reached from a start where no resource of the node is stored. A handler may be
  -- called with any object that has ever been stored: its informer may be behind.
  pub data Reach : World H C → Type 0 where
    begin :
        (w : World H C)
        → ((n : Text) (e : BlockDevice) → object_at w n ≡ some e → IsForeign opt.node_name e)
        → Reach w
    runs : {w w' : World H C} → Reach w → (o : Outcome) → run H C B opt w ≡ done (o, w') → Reach w'
    changes :
        {v w w' : World H C}
        → Reach v
        → Reach w
        → (now : Time) (n : Text) (device : BlockDevice) → object_at v n ≡ some device
        → (r : Handled) → on_block_device_change H C K now (some device) w ≡ done (r, w')
        → Reach w'
    removes :
        {w w' : World H C}
        → Reach w
        → (o : Option BlockDevice) (r : Handled)
        → on_block_device_delete H C opt.namespace o w ≡ done (r, w')
        → Reach w'
    removes_node :
        {w w' : World H C}
        → Reach w
        → (o : Option Node) (r : Option Node × Option ApiError)
        → on_node_delete H C opt.namespace o w ≡ done (r, w')
        → Reach w'
    hears :
        {w w' : World H C}
        → Reach w
        → (now : ℕ → Time) (fuel : ℕ) (uevent : UEvent)
        → action_handler H C K now udev_settings fuel uevent w ≡ done (tt, w')
        → Reach w'
    others : {w w' : World H C} → Reach w → Others w w' → Reach w'

  abbrev J : World H C → Type 0
  J = AllKnown H C opt.namespace opt.node_name S

  -- A run that keeps the invariant has kept it in the world where it ended.
  kept :
      {A : Type 0} (m : M (World H C) A)
      → Ensures J Any m
      → (w w' : World H C) (a : A) → J w
      → m w ≡ done (a, w')
      → J w'
  kept m e w w' a i ran = (subst (Ends J Any) ran (e w i)).0

  Reach-AllKnown : (w : World H C) → Reach w → AllKnown H C opt.namespace opt.node_name S w
  Reach-AllKnown w (begin _ fresh) = λ n e at. inr (fresh n e at)
  Reach-AllKnown w' (runs {w = w} r o ran) =
      kept (run H C B opt) (run-AllKnown H C B opt S) w w' o (Reach-AllKnown w r) ran
  Reach-AllKnown w' (changes {v = v} {w = w} seen r now n device at h ran) =
      kept (on_block_device_change H C K now (some device))
        (on_block_device_change-AllKnown H C opt.namespace opt.node_name S K now device
          (Reach-AllKnown v seen n device at))
        w w' h (Reach-AllKnown w r) ran
  Reach-AllKnown w' (removes {w = w} r o h ran) =
      kept (on_block_device_delete H C opt.namespace o)
        (on_block_device_delete-AllKnown H C opt.namespace opt.node_name S o) w w' h
        (Reach-AllKnown w r) ran
  Reach-AllKnown w' (removes_node {w = w} r o h ran) =
      kept (on_node_delete H C opt.namespace o)
        (on_node_delete-AllKnown H C opt.namespace opt.node_name S o) w w' h (Reach-AllKnown w r)
        ran
  Reach-AllKnown w' (hears {w = w} r now fuel uevent ran) =
      kept (action_handler H C K now udev_settings fuel uevent)
        (action_handler-AllKnown H C udev_settings S K now fuel uevent) w w' tt (Reach-AllKnown w r)
        ran
  Reach-AllKnown w' (others {w = w} r moved) = λ n e at.
      FromOthers-IsKnown H C opt.namespace opt.node_name S w n e (Reach-AllKnown w r) (moved n e at)

  -- In a cluster where others act at any time, also inside of the handlers' calls, and what they leave is
  -- an object that was there with its name, path, node and host label, one that a handler on this node
  -- has found, or one with a name that no device of the node has: in every reachable world each object of
  -- the namespace is a resource of this node, whose name, path, node and host label fit each other, or
  -- has a name that no device of the node has.
  pub Reach-IsKnown :
      (w : World H C)
      → Reach w
      → (n : Text) (e : BlockDevice) → object_at w n ≡ some e
      → IsKnown opt.node_name e
  Reach-IsKnown w r n e at = Reach-AllKnown w r n e at

  -- The other way round: what is stored in a reachable world is what others may leave there, whatever
  -- was stored before. So the handlers of the daemon may be the others of each other.
  pub Reach-Others : (v w : World H C) → Reach w → Others v w
  Reach-Others v w r n e at =
      IsKnown-FromOthers H opt.node_name opt.namespace (object_at v) n e (Reach-AllKnown w r n e at)

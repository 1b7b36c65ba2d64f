-- ===== src/World.antt =====
-- What the controllers act on: the node, the cluster, and the pauses made so far.
use disk_manager.Base.{ℕ, Bool, Option, List, [], ◌∷◌, ◌++◌}
use disk_manager.Text.{Text}
use disk_manager.Api.{Time, Condition}
use disk_manager.Host.{Host}
use disk_manager.Cluster.{Cluster}
use disk_manager.Effects.{done, M}

-- Functions of wrangler's `condition.Cond` on the conditions of an object, at a time, by the name of
-- the condition; and `IsSupportedFileSystem` of longhorn-manager.
pub record Toolkit : Type 0 where
  pub set_status_bool : Time → Text → Bool → List Condition → List Condition
  -- the reason, and the message of the error if there is one
  pub set_error : Time → Text → Text → Option Text → List Condition → List Condition
  pub set_message : Time → Text → Text → List Condition → List Condition
  pub is_supported_file_system : Text → Bool

module _ (H : Host) (C : Cluster) where
  pub record World : Type 0 where
    pub host : H.State
    pub cluster : C.State
    -- the durations slept, in nanoseconds, in order
    pub slept : List ℕ

module _ {H : Host} {C : Cluster} where
  -- A call of the cluster.
  abbrev pub call : {A : Type 0} → (C.State → A × C.State) → M (World H C) A
  call f w = let (a, c) = f w.cluster in done (a, record w { cluster = c })

  -- An effect on the node.
  abbrev pub act : {A : Type 0} → (H.State → A × H.State) → M (World H C) A
  act f w = let (a, h) = f w.host in done (a, record w { host = h })

  abbrev pub sleep : ℕ → M (World H C) (Unit {0})
  sleep d w = done (tt, record w { slept = w.slept ++ d ∷ [] })

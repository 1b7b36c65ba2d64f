-- ===== src/Main.antt =====
-- main.go and pkg/option/option.go: the options, the logger's set-up, and the start of the program.
pub mod Monitoring
pub mod Registered
pub mod Start
use disk_manager.Base.{
  inl, inr, ℕ, Bool, ◌||◌, Option, none, some, List, [], ◌++◌, is_empty, if◌then◌else◌,
}
use disk_manager.Text.{Text, codes, equals}
use disk_manager.Host.{Host}
use disk_manager.Cluster.{Cluster}
use disk_manager.Effects.{M, pure, reads, ◌>>=◌}
use disk_manager.World.{World}
use disk_manager.Block.Disk.{Disk, disks}
use disk_manager.Block.Info.{new_info}
use disk_manager.Controller.Register.{Registration, Settings, register}
use disk_manager.Controller.Delete.{register_node}

-- `option.Option`
pub record Options : Type 0 where
  pub kube_config : Text
  pub namespace : Text
  pub node_name : Text
  pub threadiness : ℕ
  pub debug : Bool
  pub trace : Bool
  pub log_format : Text
  pub profiler_address : Text

-- The values that the command line and the environment give, by the name of the flag.
pub record Given : Type 0 where
  pub text : Text → Option Text
  pub number : Text → Option ℕ
  pub flag : Text → Bool

abbrev or_value {ℓ} : {A : Type ℓ} → Option A → A → A
or_value none v = v
or_value (some a) v = a

-- `app.Flags`: a flag that is not given has its `Value`, which is the empty one where the source
-- sets none. `DefaultText` is for the help only.
unfoldable pub options_from : Given → Options
options_from g = record {
  kube_config = or_value (g.text (codes "kubeconfig")) [];
  namespace = or_value (g.text (codes "namespace")) [];
  node_name = or_value (g.text (codes "node-name")) [];
  threadiness = or_value (g.number (codes "threadiness")) 0;
  debug = g.flag (codes "debug");
  trace = g.flag (codes "trace");
  log_format = or_value (g.text (codes "log-format")) (codes "text");
  profiler_address = or_value (g.text (codes "profile-listen-address")) (codes "0.0.0.0:6060");
}

pub data Formatter : Type 0 where
  simple_format json_format text_format : Formatter

pub data Level : Type 0 where
  default_level debug_level trace_level : Level

-- `initLogs`: the formatter, and the level that is set last.
unfoldable pub init_logs : Options → Formatter × Level
init_logs opt = (
  if equals opt.log_format (codes "simple")
      then simple_format
      else if equals opt.log_format (codes "json")
      then json_format
      else text_format,
  if opt.trace then trace_level else if opt.debug then debug_level else default_level,
)

-- `initProfiling`: the address to listen on, if there is one
unfoldable pub init_profiling : Options → Option Text
init_profiling opt = if is_empty opt.profiler_address then none else some opt.profiler_address

-- The errors of the libraries that `run` calls: ghw's context, the Kubernetes configuration, the
-- factory of the controllers, and their start.
pub record Libraries : Type 0 where
  pub block_error : Option Text
  pub kube_config_error : Text → Option Text
  pub factory_error : Option Text
  pub start_error : ℕ → Option Text

-- `run` returns an error, dies by `logrus.Fatalf`, or has started with these handlers.
pub data Outcome : Type 0 where
  returned : Text → Outcome
  fatal : Text → Outcome
  started : List Registration → Outcome

abbrev pub settings : Options → List Disk → Settings
settings opt found = record { namespace = opt.namespace; node_name = opt.node_name; disks = found }

module _ (H : Host) (C : Cluster) (L : Libraries) (opt : Options) where
  unfoldable pub start_all : List Registration → Outcome
  start_all handlers = elim (L.start_error opt.threadiness) [
    | some e ↦ fatal (codes "error starting, " ++ e)
    | none ↦ started handlers
  ]

  -- What the leader does: the two `Register` functions and the start.
  unfoldable pub lead : List Disk → M (World H C) Outcome
  lead found = do
    reply ← register H C (settings opt found)
    pure (elim reply.error [
      | some e ↦ fatal (codes "failed to register block device controller, " ++ e.message)
      | none ↦ start_all (reply.value ++ register_node)
    ])

  unfoldable pub connect : List Disk → M (World H C) Outcome
  connect found = elim (L.kube_config_error opt.kube_config) [
    | some e ↦ pure (returned (codes "failed to find kubeconfig: " ++ e))
    | none ↦ elim L.factory_error [
      | some e ↦ pure (returned (codes "error building node-disk-manager controllers: " ++ e))
      | none ↦ lead found
    ]
  ]

  unfoldable pub scan : M (World H C) Outcome
  scan = do
    made ← new_info H C L.block_error
    elim made [ inl e ↦ pure (returned e) | inr info ↦ connect info.disks ]

  -- `run`, up to the wait for the end of the context
  unfoldable pub run : M (World H C) Outcome
  run =
      if is_empty opt.node_name || is_empty opt.namespace
      then pure (returned (codes "either node name or namespace is empty"))
      else scan

  -- An error that `run` returns is fatal: `logrus.Fatal` in `main`.
  abbrev pub exit_of : Outcome → Outcome
  exit_of (returned e) = fatal e
  exit_of (fatal e) = fatal e
  exit_of (started handlers) = started handlers

  -- `app.Action`, and what `main` does with its error: the address on which a goroutine is to listen for the
  -- profiler, the set-up of the logger, and the exit.
  unfoldable pub main_action : M (World H C) (Option Text × (Formatter × Level) × Outcome)
  main_action = do outcome ← run; pure (init_profiling opt, init_logs opt, exit_of outcome)

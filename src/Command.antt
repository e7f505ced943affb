-- ===== src/Command.antt =====
-- cmd/mistryd/main.go and pkg/filesystem: the two commands of the server's binary.
pub mod Rebuilding
use mistry.Base.{
  ℕ, ◌+◌, Bool, true, Option, none, some, List, [], ◌∷◌, ◌++◌, ◌==◌, nat_eq, list_eq, if◌then◌else◌,
}
use mistry.Base.Dict.{Dict, lookup}
use mistry.Base.Text.{Str, codes, first_bytes}
use mistry.Types.{GoError, Result, ok, err, message, error_text}
use mistry.Base.Int.{ℤ, pos, negsuc}
use mistry.Paths.{FilePath}
use mistry.Files.{Node, stat}
use mistry.System.{Env, T, FileSystem, pure, throw, map_error, syscall, plainfs, btrfs, ◌>>=◌, ◌>>◌}
use mistry.Job.{Config}
use mistry.JobQueue.{JobQueue, new_job_queue}
use mistry.ProjectQueue.{ProjectQueue, new_project_queue}
use mistry.Broker.{Broker, new_broker}
use mistry.WorkerPool.{new_worker_pool}
use mistry.Server.{Pool}
use mistry.Configuration.{parse_config}
use mistry.Index.{prune_zombie_builds}
use mistry.Rebuild.{RebuildResult, rebuild_images, rebuild_text}

-- What the commands take from the process: its user and processors, the JSON of a configuration
-- file over a value, and how the packages `fmt` and `units` show the registry and a size.
pub record Process : Type 0 where
  pub uid : Str
  pub cpus : ℕ
  pub decode : Node → Config → Result Config
  pub show_registry : Str
  pub human_size : ℕ → Str

-- `Server`: the part of it that the modelled code uses. `metrics` says whether there is a recorder.
pub record Server : Type 0 where
  pub jq : JobQueue
  pub pq : ProjectQueue
  pub br : Broker
  pub cfg : Config
  pub worker_pool : Pool
  pub metrics : Bool

-- `NewServer` panics, in `make`, for a negative backlog.
pub data NewServer : Type 0 where
  made : Server → NewServer
  refused : GoError → NewServer
  panics : NewServer

-- The number of turns of `for i := 0; i < n; i++`.
abbrev pub turns : ℤ → ℕ
turns (pos n) = n
turns (negsuc n) = 0

abbrev server_of : Config → Bool → ℕ → Server
server_of cfg metrics backlog = record {
  jq = new_job_queue;
  pq = new_project_queue;
  br = new_broker;
  cfg = cfg;
  worker_pool = new_worker_pool (turns cfg.concurrency) backlog;
  metrics = metrics;
}

made_with : Config → Bool → ℤ → NewServer
made_with cfg metrics (pos backlog) = made (server_of cfg metrics backlog)
made_with cfg metrics (negsuc n) = panics

-- `NewServer`; `none` is a nil configuration.
unfoldable pub new_server : Option Config → Bool → NewServer
unfolding made_with
new_server none metrics = refused (message (codes "config cannot be nil"))
new_server (some cfg) metrics = made_with cfg metrics cfg.backlog

-- The version that `--version` shows; a suffix of fewer than seven bytes makes it panic.
abbrev pub version : Str
version = codes "0.1.0"

unfoldable pub app_version : Str → Option Str
app_version suffix = if suffix == [] then some version else elim (first_bytes 7 suffix) [
  | none ↦ none
  | some short ↦ some (version ++ (codes "-" ++ short))
]

module _ (env : Env) (process : Process) where
  -- `filesystem.Registry`, as the packages of the adapters fill it.
  abbrev pub registry : Dict Str FileSystem
  registry = (codes "btrfs", btrfs env) ∷ (codes "plain", plainfs env) ∷ []

  found : Str → Option FileSystem → T FileSystem
  found name (some fs) = pure fs
  found name none = throw (
      message (
        codes "unknown filesystem '"
        ++ (name ++ (codes "' (" ++ (process.show_registry ++ codes ")")))))

  -- `filesystem.Get`
  unfoldable pub get_file_system : Str → T FileSystem
  unfolding found
  get_file_system name = found name (lookup name registry)

  -- `parseConfigFromCli`, with the values of the flags `filesystem`, `config` and `addr`.
  unfoldable pub parse_config_from_cli : Str → FilePath → Str → T Config
  parse_config_from_cli file_system config addr = do
    fs ← get_file_system file_system
    file ←
        map_error (λ e. message (codes "cannot parse configuration; " ++ error_text e))
          (syscall env (stat config))
    parse_config env process.uid process.cpus (process.decode file) addr fs

  -- `SetUp`
  abbrev pub set_up : Config → T (Unit {0})
  set_up cfg = prune_zombie_builds env cfg

  -- The action of the command without a name, until the server listens.
  unfoldable pub server_action : Str → FilePath → Str → T NewServer
  server_action file_system config addr = do
    cfg ← parse_config_from_cli file_system config addr
    set_up cfg
    pure (new_server (some cfg) true)

  abbrev rebuild_message : RebuildResult → Result Str
  rebuild_message r =
      if r.failed == []
      then ok (codes "Finished. " ++ (rebuild_text process.human_size r ++ codes "\n"))
      else err (message (rebuild_text process.human_size r))

  -- Behind `RebuildImages`: what the command prints, or its error.
  rebuild_reported : RebuildResult × Option GoError → T Str
  rebuild_reported (r, some e) = throw e
  rebuild_reported (r, none) = λ s. (rebuild_message r, s)

  -- The action of the command `rebuild`.
  unfoldable pub rebuild_action : Str → FilePath → Str → List Str → Bool → T Str
  unfolding rebuild_reported
  rebuild_action file_system config addr projects fail_fast = do
    cfg ← parse_config_from_cli file_system config addr
    end ← rebuild_images env cfg projects fail_fast
    rebuild_reported end

-- `main` from the error of the action on: what is printed, and the exit code.
abbrev pub exit_of : {A : Type 0} → Result A → Str × ℕ
exit_of (ok a) = ([], 0)
exit_of (err e) = (error_text e ++ codes "\n", 1)

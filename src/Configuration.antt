-- ===== src/Configuration.antt =====
-- cmd/mistryd/config.go: the configuration that the server starts with.
pub mod Laws
use mistry.Base.{ℕ, [], ◌==◌, nat_eq, list_eq, if◌then◌else◌}
use mistry.Base.Text.{Str, codes}
use mistry.Types.{Result, ok, err, message}
use mistry.Base.Int.{pos, double, int_eq}
use mistry.System.{Env, T, FileSystem, pure, throw, ◌>>=◌, ◌>>◌}
use mistry.Utils.{path_is_dir}
use mistry.Job.{Config}

-- `new(Config)` with the address and the adapter; what follows it is decoded over it.
blank : Str → FileSystem → Config
blank addr fs = record {
  addr = addr;
  file_system = fs;
  uid = [];
  projects_path = [];
  build_path = [];
  mounts = [];
  concurrency = pos 0;
  backlog = pos 0;
}

abbrev or_uid : Str → Config → Config
or_uid uid cfg = record cfg { uid = if cfg.uid == [] then uid else cfg.uid }

abbrev or_concurrency : ℕ → Config → Config
or_concurrency cpus cfg = record cfg {
  concurrency = if cfg.concurrency == pos 0 then pos cpus else cfg.concurrency;
}

abbrev or_backlog : Config → Config
or_backlog cfg = record cfg {
  backlog = if cfg.backlog == pos 0 then double cfg.concurrency else cfg.backlog;
}

-- `ParseConfig`, with the user's id, the number of processors, and the decoding of the reader's
-- JSON over a value.
module _ (env : Env) (uid : Str) (cpus : ℕ) (decode : Config → Result Config) where
  checked : Config → T Config
  checked cfg =
      path_is_dir env cfg.projects_path
      >> (path_is_dir env cfg.build_path >> pure (or_backlog (or_concurrency cpus cfg)))

  decoded : Result Config → T Config
  unfolding checked
  decoded (err e) = throw e
  decoded (ok cfg) = checked (or_uid uid cfg)

  unfoldable pub parse_config : Str → FileSystem → T Config
  unfolding blank decoded
  parse_config addr fs =
      if addr == []
      then throw (message (codes "addr must be provided"))
      else decoded (decode (blank addr fs))

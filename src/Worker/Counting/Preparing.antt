-- ===== src/Worker/Counting/Preparing.antt =====
-- cmd/mistryd/worker.go and job.go: the calls that are counted before the container of a build runs.
use mistry.Base.{ℕ, Bool, true, false, Option, none, some, nat_eq, list_eq}
use mistry.Types.{Result, ok, err, BuildInfo}
use mistry.Paths.{FilePath}
use mistry.Files.{Node, Content, text, json_info}
use mistry.System.{Env, Call}
use mistry.System.Counting.{Adds, adds_rules}
use mistry.Base.Int.{int_eq}
use mistry.Worker.Counting.{IsCounted, AdapterAdds, Adds-persist_build_info}
use mistry.Utils.{ensure_found, ensure_dir_exists}
use mistry.Job.{
  Config, Job, clone_src_path, read_job_logs, with_logs, decode_info, read_job_build_info,
}
use mistry.Worker.{project_found, prepare}
use mistry.Worker.Bootstrap.{
  bootstrap_project, persist_build_info, create_build_dir, bootstrap_build_dir,
}

module _ (env : Env) (f : Call → Bool) where
  Adds-ensure_found : (p : FilePath) (r : Result Node) → Adds f 0 (ensure_found env p r)
  unfolding ensure_found
  Adds-ensure_found p (ok m) = search adds_rules
  Adds-ensure_found p (err e) = search adds_rules

  Adds-ensure_dir_exists : (p : FilePath) → Adds f 0 (ensure_dir_exists env p)
  unfolding ensure_dir_exists
  Adds-ensure_dir_exists p = search (adds_rules, Adds-ensure_found) depth 8

  Adds-with_logs :
      (path : FilePath) (logs : Bool) (i : BuildInfo) → Adds f 0 (with_logs env path logs i)
  unfolding with_logs read_job_logs
  Adds-with_logs path true i = search adds_rules depth 8
  Adds-with_logs path false i = search adds_rules

  Adds-decode_info : (c : Content) → Adds f 0 (decode_info c)
  unfolding decode_info
  Adds-decode_info (text s) = search adds_rules
  Adds-decode_info (json_info i) = search adds_rules

  pub Adds-read_job_build_info :
      (path : FilePath) (logs : Bool) → Adds f 0 (read_job_build_info env path logs)
  unfolding read_job_build_info
  Adds-read_job_build_info path logs = search (adds_rules, Adds-decode_info, Adds-with_logs) depth 8

module _ (env : Env) (f : Call → Bool) (n : ℕ) (j : Job) (k : IsCounted f n j) (cfg : Config)
    (a : AdapterAdds f cfg.file_system) where
  Adds-bootstrap_project : Adds f 0 (bootstrap_project env j)
  unfolding bootstrap_project
  Adds-bootstrap_project = search (adds_rules, Adds-ensure_dir_exists) depth 10

  Adds-clone_src_path : Adds f 0 (clone_src_path env j)
  unfolding clone_src_path
  Adds-clone_src_path = search adds_rules depth 8

  Adds-create_build_dir : (src : Option FilePath) → Adds f 0 (create_build_dir env j cfg src)
  unfolding create_build_dir
  Adds-create_build_dir none = search (adds_rules, a.create) depth 8
  Adds-create_build_dir (some src) = search (adds_rules, a.clone) depth 12

  Adds-bootstrap_build_dir : Adds f 0 (bootstrap_build_dir env j cfg)
  unfolding bootstrap_build_dir
  Adds-bootstrap_build_dir =
      search (adds_rules, Adds-clone_src_path, Adds-create_build_dir, Adds-ensure_dir_exists) depth
        14

  Adds-project_found : (r : Result Node) → Adds f 0 (project_found env j r)
  unfolding project_found
  Adds-project_found (ok m) = search adds_rules
  Adds-project_found (err e) = search adds_rules

  persists : Adds f 0 (persist_build_info env j)
  persists = Adds-persist_build_info env f n j k

  pub Adds-prepare : Adds f 0 (prepare env j cfg)
  unfolding prepare
  Adds-prepare =
      search
        (adds_rules, Adds-project_found, Adds-bootstrap_project, Adds-bootstrap_build_dir, persists)
        depth 14

-- ===== src/Worker/Frame/Preparing.antt =====
-- cmd/mistryd/worker.go and job.go: which paths a build writes before its container runs.
use mistry.Base.{true, Bool, false, Option, none, some, nat_eq, list_eq}
use mistry.Types.{Result, ok, err, BuildInfo}
use mistry.Paths.{FilePath}
use mistry.Files.{Node, Content, text, json_info}
use mistry.Files.Laws.{OpKeeps-stat, OpKeeps-read_file, OpKeeps-eval_symlinks, OpKeeps-remove_all}
use mistry.System.{Env, for_each}
use mistry.System.Laws.{Keeps, keeps_rules}
use mistry.Job.{Config, Job, clone_src_path, with_logs, decode_info, read_job_build_info}
use mistry.Worker.{project_found, prepare}
use mistry.Worker.Bootstrap.{bootstrap_project, create_build_dir, bootstrap_build_dir}
use mistry.Worker.Frame.{
  Outside, AdapterKeeps, Keeps-ensure_dir_exists, Keeps-persist_build_info, Keeps-read_job_logs,
}

module _ (env : Env) (j : Job) (x : FilePath) (o : Outside j x) where
  Keeps-bootstrap_project : Keeps x (bootstrap_project env j)
  unfolding bootstrap_project
  Keeps-bootstrap_project =
      search
        (keeps_rules, Keeps-ensure_dir_exists, o.root, o.pending_dir, o.ready_dir, o.groups_dir)
        depth 10

  Keeps-clone_src_path : Keeps x (clone_src_path env j)
  unfolding clone_src_path
  Keeps-clone_src_path = search (keeps_rules, OpKeeps-eval_symlinks) depth 8

  module _ (cfg : Config) (a : AdapterKeeps cfg.file_system j x) where
    Keeps-create_build_dir : (src : Option FilePath) → Keeps x (create_build_dir env j cfg src)
    unfolding create_build_dir
    Keeps-create_build_dir none = search (keeps_rules, a.create) depth 8
    Keeps-create_build_dir (some src) =
        search (keeps_rules, a.clone, OpKeeps-remove_all, o.params_tree) depth 12

    Keeps-bootstrap_build_dir : Keeps x (bootstrap_build_dir env j cfg)
    unfolding bootstrap_build_dir for_each
    Keeps-bootstrap_build_dir =
        search
          (
            keeps_rules, Keeps-clone_src_path, Keeps-create_build_dir, Keeps-ensure_dir_exists,
            o.data_path, o.cache, o.artifacts, o.params_path,
          )
          depth 14

    Keeps-project_found : (r : Result Node) → Keeps x (project_found env j r)
    unfolding project_found
    Keeps-project_found (ok n) = search keeps_rules
    Keeps-project_found (err e) = search keeps_rules

    pub Keeps-prepare : Keeps x (prepare env j cfg)
    unfolding prepare
    Keeps-prepare =
        search
          (
            keeps_rules, OpKeeps-stat, Keeps-project_found, Keeps-bootstrap_project,
            Keeps-bootstrap_build_dir, Keeps-persist_build_info,
          )
          depth 14

module _ (env : Env) (x : FilePath) where
  Keeps-info_of :
      (path : FilePath) (logs : Bool) (i : BuildInfo) → Keeps x (with_logs env path logs i)
  unfolding with_logs
  Keeps-info_of path true i = search (keeps_rules, Keeps-read_job_logs) depth 8
  Keeps-info_of path false i = search keeps_rules

  Keeps-decode_info : (c : Content) → Keeps x (decode_info c)
  unfolding decode_info
  Keeps-decode_info (text s) = search keeps_rules
  Keeps-decode_info (json_info i) = search keeps_rules

  pub Keeps-read_job_build_info :
      (path : FilePath) (logs : Bool) → Keeps x (read_job_build_info env path logs)
  unfolding read_job_build_info
  Keeps-read_job_build_info path logs =
      search (keeps_rules, OpKeeps-read_file, Keeps-decode_info, Keeps-info_of) depth 8

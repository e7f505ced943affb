-- ===== src/Worker/Frame.antt =====
-- cmd/mistryd/worker.go: which paths a build can write at all.
pub mod Preparing
use mistry.Docker.{
  build_image, rename_if_exists, rename_all, deferred, follow_container, start_container,
  put_written, write_nodes,
}
use mistry.Base.{
  ◌≡◌, refl, ◌∙◌, Bool, false, List, [], ◌∷◌, ◌++◌, ◌==◌, nat_eq, list_eq, All, ℕ, ne_of, String,
  is_some,
}
use mistry.Base.Text.{Str, codes, strip_append}
use mistry.Types.{Result, ok, err}
use mathlib.Core.Path.{subst, ap}
use mistry.Paths.{FilePath, join, data_dir, params_dir, cache_dir, artifacts_dir}
use mistry.Files.{Node, under, Files}
use mistry.Files.Laws.{
  OpKeeps, OpKeeps-stat, OpKeeps-mkdir, OpKeeps-write_file, OpKeeps-read_file, OpKeeps-append_file,
}
use mistry.System.{Env, T, FileSystem, for_each}
use mistry.System.Laws.{Keeps, keeps_rules, Keeps-for_each_All}
use mistry.Utils.{ensure_found, ensure_dir_exists}
use mistry.Job.{Config, Job, read_job_logs}
use mistry.Worker.{record_outcome}
use mistry.Worker.Bootstrap.{persist_build_info}
use mistry.Worker.Running.{
  write_log, container_ran, run_container, build_and_run, write_param, run_build,
}

-- The file system adapter leaves `x` alone where the build uses it.
pub record AdapterKeeps (fs : FileSystem) (j : Job) (x : FilePath) : Type 0 where
  pub create : Keeps x (fs.create j.pending_build_path)
  pub clone : (src : FilePath) → Keeps x (fs.clone src j.pending_build_path)
  pub remove : Keeps x (fs.remove j.ready_build_path)

-- `x` is none of the paths that a build of `j` writes before it is published.
pub record Outside (j : Job) (x : FilePath) : Type 0 where
  pub root : (x == j.root_build_path) ≡ false
  pub pending_dir : (x == join j.root_build_path (codes "pending" ∷ [])) ≡ false
  pub ready_dir : (x == join j.root_build_path (codes "ready" ∷ [])) ≡ false
  pub groups_dir : (x == join j.root_build_path (codes "groups" ∷ [])) ≡ false
  pub data_tree : under (join j.pending_build_path (data_dir ∷ [])) x ≡ false
  pub params_tree : under (join j.pending_build_path (data_dir ∷ params_dir ∷ [])) x ≡ false
  pub data_path : (x == join j.pending_build_path (data_dir ∷ [])) ≡ false
  pub cache : (x == join j.pending_build_path (data_dir ∷ cache_dir ∷ [])) ≡ false
  pub artifacts : (x == join j.pending_build_path (data_dir ∷ artifacts_dir ∷ [])) ≡ false
  pub params_path : (x == join j.pending_build_path (data_dir ∷ params_dir ∷ [])) ≡ false
  pub param_files :
      All
        (λ kv. (x == join j.pending_build_path (data_dir ∷ params_dir ∷ kv.0 ∷ [])) ≡ false)
        j.params
  pub log : (x == j.build_log_path) ≡ false
  pub info : (x == j.build_info_file_path) ≡ false

module _ (env : Env) (x : FilePath) where
  pub Keeps-ensure_found :
      (p : FilePath) (r : Result Node) → (x == p) ≡ false → Keeps x (ensure_found env p r)
  unfolding ensure_found
  Keeps-ensure_found p (ok fi) apart = search keeps_rules
  Keeps-ensure_found p (err e) apart = search (keeps_rules, OpKeeps-mkdir)

  pub Keeps-ensure_dir_exists :
      (p : FilePath) → (x == p) ≡ false → Keeps x (ensure_dir_exists env p)
  unfolding ensure_dir_exists
  Keeps-ensure_dir_exists p apart = search (keeps_rules, OpKeeps-stat, Keeps-ensure_found) depth 8

  pub Keeps-read_job_logs : (p : FilePath) → Keeps x (read_job_logs env p)
  unfolding read_job_logs
  Keeps-read_job_logs p = search (keeps_rules, OpKeeps-read_file) depth 8

  module _ (j : Job) where
    Keeps-rename_if_exists : Keeps x (rename_if_exists env j)
    unfolding rename_if_exists rename_all
    Keeps-rename_if_exists = search keeps_rules depth 8

    pub Keeps-build_image :
        (uid : Str) (out : Str → T (Unit {0})) (pull no_cache : Bool)
        → ((printed : Str) → Keeps x (out printed))
        → Keeps x (build_image env j uid out pull no_cache)
    unfolding build_image
    Keeps-build_image uid out pull no_cache h = search keeps_rules depth 12

    Keeps-follow_container :
        (out : Str → T (Unit {0})) (id : Str)
        → ((printed : Str) → Keeps x (out printed))
        → Keeps x (follow_container env j out id)
    unfolding follow_container
    Keeps-follow_container out id h = search keeps_rules depth 12

-- A path that is not below `base` is none of those below it.
pub ne_below : (x base p : FilePath) → under base x ≡ false → (x == base ++ p) ≡ false
ne_below x base p h =
    ne_of x (base ++ p)
      λ e. cc (subst (λ y. under base y ≡ false) e h, ap is_some (strip_append base p))

OpKeeps-no_change : (x : FilePath) → OpKeeps {A = Unit {0}} x (λ fs. (ok tt, fs))
OpKeeps-no_change x fs = refl

-- A list of nodes below `base` is written.
put_node_apart :
    (x base : FilePath) (nodes : List (FilePath × Node)) (fs : Files)
    → under base x ≡ false
    → (write_nodes base nodes fs).node x ≡ fs.node x
unfolding write_nodes
put_node_apart x base [] fs h = refl
put_node_apart x base ((p, n) ∷ nodes) fs h =
    put_node_apart x base nodes _ h ∙ rw (ne_below x base p h)

module _ (env : Env) (j : Job) (x : FilePath) (o : Outside j x) where
  Keeps-put_written :
      (nodes : List (FilePath × Node))
      → Keeps x (put_written (join j.pending_build_path (data_dir ∷ [])) nodes)
  unfolding put_written
  Keeps-put_written nodes = record { at = λ s. put_node_apart x _ nodes s.files o.data_tree }

  Keeps-write_log : (printed : Str) → Keeps x (write_log env j printed)
  unfolding write_log
  Keeps-write_log printed = record { at = λ s. OpKeeps-append_file x _ o.log printed s.files }

  Keeps-start_container : (cfg : Config) → Keeps x (start_container env j cfg (write_log env j))
  unfolding start_container
  Keeps-start_container cfg =
      search
        (
          keeps_rules, Keeps-rename_if_exists, Keeps-put_written, Keeps-follow_container,
          Keeps-write_log,
        )
        depth 14

  Keeps-container_ran : (r : Result _) → Keeps x (container_ran env j r)
  unfolding container_ran
  Keeps-container_ran (ok r) = search keeps_rules
  Keeps-container_ran (err e) = search keeps_rules

  Keeps-run_container : (cfg : Config) → Keeps x (run_container env j cfg)
  unfolding run_container
  Keeps-run_container cfg = search (keeps_rules, Keeps-start_container, Keeps-container_ran) depth 8

  Keeps-build_and_run :
      (cfg : Config) (metrics : Bool) (start : ℕ) → Keeps x (build_and_run env j cfg metrics start)
  unfolding build_and_run
  Keeps-build_and_run cfg metrics start =
      search
        (
          keeps_rules, Keeps-build_image, Keeps-write_log, Keeps-run_container, Keeps-read_job_logs,
          OpKeeps-no_change,
        )
        depth 14

  Keeps-write_param :
      (kv : Str × Str)
      → (x == join j.pending_build_path (data_dir ∷ params_dir ∷ kv.0 ∷ [])) ≡ false
      → Keeps x (write_param env j kv)
  unfolding write_param
  Keeps-write_param (k, v) h = search (keeps_rules, OpKeeps-write_file) depth 8

  All-write_param :
      (params : List (Str × Str))
      → All
          (λ kv. (x == join j.pending_build_path (data_dir ∷ params_dir ∷ kv.0 ∷ [])) ≡ false)
          params
      → All (λ kv. Keeps x (write_param env j kv)) params
  All-write_param [] h = tt
  All-write_param (kv ∷ params) (h, t) = (Keeps-write_param kv h, All-write_param params t)

  Keeps-deferred :
      (what : String) (last m : T (Unit {0}))
      → Keeps x last
      → Keeps x m
      → Keeps x (deferred what last m)
  unfolding deferred
  Keeps-deferred what last m h k = record { at = λ s. h.at (m s).1 ∙ k.at s }

  keeps_params : Keeps x (for_each j.params (write_param env j))
  keeps_params = Keeps-for_each_All x _ _ (All-write_param j.params o.param_files)

  pub Keeps-run_build :
      (cfg : Config) (metrics : Bool) (start : ℕ) → Keeps x (run_build env j cfg metrics start)
  unfolding run_build
  Keeps-run_build cfg metrics start =
      search
        (
          keeps_rules, keeps_params, OpKeeps-write_file, o.log, Keeps-deferred, OpKeeps-no_change,
          Keeps-build_and_run,
        )
        depth 12

  pub Keeps-persist_build_info : Keeps x (persist_build_info env j)
  unfolding persist_build_info
  Keeps-persist_build_info = search (keeps_rules, OpKeeps-write_file, o.info) depth 8

  pub Keeps-record_outcome : (r : Result (Unit {0})) → Keeps x (record_outcome env j r)
  unfolding record_outcome
  Keeps-record_outcome r = search (keeps_rules, Keeps-persist_build_info) depth 8

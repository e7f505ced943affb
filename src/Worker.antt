-- ===== src/Worker.antt =====
-- cmd/mistryd/worker.go: how a job is built.
pub mod Bootstrap
pub mod Running
mod Frame
mod Publish
pub mod Finish
pub mod Cache
pub mod Reuse
pub mod Container
pub mod Isolation
pub mod Whole
pub mod Safety
pub mod Counting
use mistry.Docker.{combine}
use mistry.Base.{
  ℕ, Bool, true, not, Option, none, some, [], ◌∷◌, ◌==◌, nat_eq, list_eq, if◌then◌else◌,
}
use mistry.Base.Text.{codes}
use mistry.Base.Int.{int_eq}
use mistry.Types.{
  GoError, error_text, is_not_exist, Result, ok, err, BuildInfo, container_success_exit_code,
}
use mistry.Paths.{join}
use mistry.Files.{Node, stat, lstat, remove, rename, symlink}
use mistry.System.{
  Env, Call, T, try, pure, throw, update_info, read_info, record_call, when, syscall, ◌>>=◌, ◌>>◌,
}
use mistry.Job.{Config, Job, read_job_build_info}
use mistry.Worker.Bootstrap.{
  or_work_err, work_err, persist_build_info, bootstrap_project, bootstrap_build_dir,
}
use mistry.Worker.Running.{run_build}

module _ (env : Env) (j : Job) where
  abbrev set_err_build : Result (Unit {0}) → BuildInfo → BuildInfo
  set_err_build (ok _) i = i
  set_err_build (err e) i = record i { err_build = error_text e }

  -- The deferred function that fills in `ErrBuild` and persists the info one last time.
  unfoldable pub record_outcome : Result (Unit {0}) → T (Unit {0})
  record_outcome outcome = do
    update_info (set_err_build outcome)
    or_work_err "could not persist build info" (persist_build_info env j)
    (λ s. (outcome, s))

  latest_found : Result Node → T (Unit {0})
  latest_found (ok _) =
      or_work_err "could not remove latest build link" (syscall env (remove j.latest_build_path))
  latest_found (err e) =
      if is_not_exist e
      then pure tt
      else throw (work_err (codes "could not stat the latest build link") (some e))

  -- `latest` is made to point at the ready path.
  unfoldable pub link_latest : T (Unit {0})
  unfolding latest_found
  link_latest = do
    found ← try (syscall env (lstat j.latest_build_path))
    latest_found found
    or_work_err "could not create latest build link"
        (syscall env (symlink j.ready_build_path j.latest_build_path))

  after_move : Result (Unit {0}) → T (Unit {0})
  after_move (err e) = throw e
  after_move (ok _) = do
    info ← read_info
    when (info.exit_code == container_success_exit_code) link_latest

  -- The deferred function that moves the build from pending to ready.
  unfoldable pub publish : Result (Unit {0}) → T (Unit {0})
  unfolding after_move
  publish outcome = do
    moved ← try (syscall env (rename j.pending_build_path j.ready_build_path))
    after_move (combine "could not move pending path" outcome moved)

  -- A build that got past the bootstrap, with its two deferred functions.
  unfoldable pub finish_build : Config → Bool → ℕ → T (Unit {0})
  finish_build cfg metrics start = do
    outcome ← try (run_build env j cfg metrics start)
    recorded ← try (record_outcome outcome)
    publish recorded

  project_found : Result Node → T (Unit {0})
  project_found (ok _) = pure tt
  project_found (err e) = throw (
      if is_not_exist e
      then work_err (codes "Unknown project") none
      else work_err (codes "could not check for project") (some e))

  -- The check for the project, the bootstraps, and the first `persistBuildInfo`: without its
  -- deferred functions.
  unfoldable pub prepare : Config → T (Unit {0})
  unfolding project_found
  prepare cfg = do
    found ← try (syscall env (stat (join cfg.projects_path (j.project ∷ []))))
    project_found found
    or_work_err "could not bootstrap project" (bootstrap_project env j)
    or_work_err "could not bootstrap build dir" (bootstrap_build_dir env j cfg)
    or_work_err "could not persist build info" (persist_build_info env j)

-- What `Work` returns.
pub record WorkResult : Type 0 where
  pub build_info : Option BuildInfo
  pub error : Option GoError

-- A part of `Work` that returns from it, or goes on.
pub data Flow : Type 0 where
  done : WorkResult → Flow
  go_on : Flow

abbrev pub error_result : Option BuildInfo → GoError → Flow
error_result info e = done (record { build_info = info; error = some e })

module _ (env : Env) (j : Job) where
  abbrev removed_flow : BuildInfo → Result (Unit {0}) → Flow
  removed_flow bi (ok _) = go_on
  removed_flow bi (err e) =
      error_result (some bi) (work_err (codes "could not remove existing failed build") (some e))

  -- A successful result exists: it is used.
  use_cached : Bool → BuildInfo → T Flow
  use_cached metrics bi = do
    when metrics (record_call (Call.cache_used j.project))
    pure (done (record { build_info = some (record bi { cached = true }); error = none }))

  -- The build failed before: it is removed, to start again.
  drop_failed : Config → BuildInfo → T Flow
  drop_failed cfg bi = do
    removed ← try (cfg.file_system.remove j.ready_build_path)
    pure (removed_flow bi removed)

  stored_read : Config → Bool → Result BuildInfo → T Flow
  unfolding use_cached drop_failed
  stored_read cfg metrics (err e) = pure (error_result none e)
  stored_read cfg metrics (ok bi) =
      if bi.exit_code == container_success_exit_code
      then use_cached metrics bi
      else drop_failed cfg bi

  ready_found : Config → Bool → Result Node → T Flow
  unfolding stored_read
  ready_found cfg metrics (ok _) = do
    stored ← try (read_job_build_info env j.ready_build_path true)
    stored_read cfg metrics stored
  ready_found cfg metrics (err e) = if is_not_exist e then pure go_on else (do
    info ← read_info
    pure (error_result (some info) (work_err (codes "could not check for ready path") (some e))))

  -- The build result cache: a ready build is returned, and a ready failed build is removed.
  unfoldable pub check_cache : Config → Bool → T Flow
  unfolding ready_found
  check_cache cfg metrics = do
    found ← try (syscall env (stat j.ready_build_path))
    ready_found cfg metrics found

  build_flow : Config → Bool → ℕ → Flow → T Flow
  build_flow cfg metrics start (done r) = pure (done r)
  build_flow cfg metrics start go_on = do
    built ← try (prepare env j cfg >> finish_build env j cfg metrics start)
    info ← read_info
    pure (
        done
          (record { build_info = some info; error = elim built [ ok _ ↦ none | err e ↦ some e ] }))

  -- `Work` after the job was added to the queue.
  unfoldable pub build : Config → Bool → ℕ → T Flow
  unfolding build_flow
  build cfg metrics start = do
    checked ← check_cache cfg metrics
    build_flow cfg metrics start checked

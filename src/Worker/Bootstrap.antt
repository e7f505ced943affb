-- ===== src/Worker/Bootstrap.antt =====
-- cmd/mistryd/worker.go and job.go: a build before its container runs: its directories and its info.
use mistry.Base.{String, true, not, Option, none, some, [], ◌∷◌, ◌++◌, ◌==◌, nat_eq, list_eq}
use mistry.Base.Text.{Str, codes, intercalate}
use mistry.Base.Int.{int_eq}
use mistry.Types.{GoError, message, error_text}
use mistry.Paths.{FilePath, join, data_dir, cache_dir, artifacts_dir, params_dir}
use mistry.Files.{json_info, remove_all, write_file}
use mistry.System.{
  Env, T, try, map_error, update_info, read_info, when, for_each, syscall, ◌>>=◌, ◌>>◌,
}
use mistry.Utils.{ensure_dir_exists}
use mistry.Job.{Config, Job, clone_src_path}

-- `workErr`
abbrev pub work_err : Str → Option GoError → GoError
work_err s none = message (codes "work: " ++ s)
work_err s (some e) = message (codes "work: " ++ (s ++ (codes "; " ++ error_text e)))

-- `if err != nil { err = workErr(s, err); return }`
abbrev pub or_work_err : {A : Type 0} → String → T A → T A
or_work_err s = map_error λ e. work_err (codes s) (some e)

-- `getJobURL`
abbrev pub get_job_url : Job → Str
get_job_url j = intercalate (codes "/") (codes "job" ∷ j.project ∷ j.id ∷ [])

module _ (env : Env) (j : Job) where
  -- `persistBuildInfo`
  unfoldable pub persist_build_info : T (Unit {0})
  persist_build_info = do
    info ← read_info
    syscall env (
        write_file j.build_info_file_path
          (json_info (record info { container_stdouterr = []; container_stderr = [] })))

  -- `BootstrapProject`. The lock of the project is that of ProjectQueue.
  unfoldable pub bootstrap_project : T (Unit {0})
  bootstrap_project = do
    ensure_dir_exists env j.root_build_path
    ensure_dir_exists env (join j.root_build_path (codes "pending" ∷ []))
    ensure_dir_exists env (join j.root_build_path (codes "ready" ∷ []))
    when (not (j.group == []))
        (ensure_dir_exists env (join j.root_build_path (codes "groups" ∷ [])))

  abbrev pub set_incremental : T (Unit {0})
  set_incremental = update_info λ i. record i { incremental = true }

  -- The first part of `BootstrapBuildDir`: a new directory, or a clone without its params.
  unfoldable pub create_build_dir : Config → Option FilePath → T (Unit {0})
  create_build_dir cfg none =
      or_work_err "could not create pending build path"
        (cfg.file_system.create j.pending_build_path)
  create_build_dir cfg (some src) = do
    cloned ← try (cfg.file_system.clone src j.pending_build_path)
    set_incremental
    or_work_err "could not create pending build path" (λ s. (cloned, s))
    or_work_err "could not remove params dir"
        (syscall env (remove_all (join j.pending_build_path (data_dir ∷ params_dir ∷ []))))

  -- `BootstrapBuildDir`
  unfoldable pub bootstrap_build_dir : Config → T (Unit {0})
  unfolding create_build_dir
  bootstrap_build_dir cfg = do
    src ← clone_src_path env j
    create_build_dir cfg src
    for_each
        (join j.pending_build_path (data_dir ∷ [])
          ∷ join j.pending_build_path (data_dir ∷ cache_dir ∷ [])
          ∷ join j.pending_build_path (data_dir ∷ artifacts_dir ∷ [])
          ∷ join j.pending_build_path (data_dir ∷ params_dir ∷ [])
          ∷ [])
        λ p. or_work_err "could not ensure directory exists" (ensure_dir_exists env p)

-- ===== src/Worker/Running.antt =====
-- cmd/mistryd/worker.go: the run of a build, from its parameters to its metrics.
use mistry.Docker.{deferred, build_image, start_container}
use mistry.Base.{ℕ, ◌-◌, ◌*◌, Bool, some, [], ◌∷◌, ◌==◌, nat_eq, list_eq}
use Prim.Native.Nat.{◌/◌}
use mistry.Base.Text.{Str, codes}
use mistry.Base.Int.{ℤ, pos, int_eq}
use mistry.Types.{Result, ok, err, container_success_exit_code}
use mistry.Paths.{join, data_dir, params_dir}
use mistry.Files.{text, Op, write_file, append_file}
use mistry.System.{
  Env, Call, T, try, pure, throw, update_info, read_info, record_call, when, for_each, syscall,
  external, get_now, ◌>>=◌, ◌>>◌,
}
use mistry.Job.{Config, Job, read_job_logs}
use mistry.Worker.Bootstrap.{or_work_err, work_err}

module _ (env : Env) (j : Job) where
  -- A write to the open log file.
  unfoldable pub write_log : Str → T (Unit {0})
  write_log printed s =
      (ok tt, record s { files = (append_file j.build_log_path printed s.files).1 })

  -- A call that does not change the files: `Sync`, and the two `Close`.
  abbrev pub no_change : Op (Unit {0})
  no_change fs = (ok tt, fs)

  abbrev pub set_exit : ℤ → T (Unit {0})
  set_exit code = update_info λ i. record i { exit_code = code }

  unfoldable pub container_ran : Result (ℤ × Str) → T Str
  container_ran (ok (code, stderr)) = set_exit code >> pure stderr
  container_ran (err e) =
      set_exit (pos 0) >> throw (work_err (codes "could not start docker container") (some e))

  -- `j.BuildInfo.ExitCode, err = j.StartContainer(...)`: with an error the exit code becomes 0.
  unfoldable pub run_container : Config → T Str
  unfolding write_log container_ran
  run_container cfg = do result ← try (start_container env j cfg write_log); container_ran result

  -- The time since `start`, in whole milliseconds.
  abbrev pub elapsed : ℕ → ℕ → ℤ
  elapsed start now = pos ((now - start) / 1000000 * 1000000)

  -- From the build of the image to the end of the function.
  unfoldable pub build_and_run : Config → Bool → ℕ → T (Unit {0})
  unfolding write_log
  build_and_run cfg metrics start = do
    or_work_err "could not build docker image"
        (build_image env j cfg.uid write_log j.rebuild j.rebuild)
    stderr ← run_container cfg
    or_work_err "could not flush the output log" (syscall env no_change)
    log ← or_work_err "could not read the job logs" (read_job_logs env j.pending_build_path)
    now ← get_now env
    update_info λ i. record i {
      container_stdouterr = log;
      container_stderr = stderr;
      duration = elapsed start now;
    }
    info ← read_info
    when metrics (
        record_call (
          Call.build_finished j.project (info.exit_code == container_success_exit_code)
            info.incremental info.duration))

  unfoldable pub write_param : Str × Str → T (Unit {0})
  write_param (k, v) = or_work_err "could not write param file" (
      syscall env
        (write_file (join j.pending_build_path (data_dir ∷ params_dir ∷ k ∷ [])) (text v)))

  -- The part of `Work` under the deferred functions. The order in which Go ranges over the
  -- parameters is left to the list.
  unfoldable pub run_build : Config → Bool → ℕ → T (Unit {0})
  unfolding write_param deferred
  run_build cfg metrics start = do
    for_each j.params write_param
    or_work_err "could not create build log file"
        (syscall env (write_file j.build_log_path (text [])))
    deferred "could not close build log file" (syscall env no_change) (do
      or_work_err "could not create docker client" (external env Call.docker_open (λ _. tt))
      deferred "could not close docker client" (external env Call.docker_close (λ _. tt))
          (build_and_run cfg metrics start))

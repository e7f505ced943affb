-- ===== src/Worker/Container.antt =====
-- cmd/mistryd/worker.go and job.go: the container of a build.
use mistry.Docker.{start_container}
use mistry.Base.{◌≡◌, refl}
use mistry.Base.Text.{Str}
use mistry.Base.Int.{pos, ℤ}
use mistry.Types.{GoError, Result, ok, err}
use mistry.System.{Env, State}
use mistry.Job.{Config, Job}
use mistry.Worker.Running.{run_container, container_ran, write_log}

module _ (env : Env) (j : Job) (cfg : Config) (s : State) where
  container_ran_err :
      (r : Result (ℤ × Str)) (e : GoError)
      → (container_ran env j r s).0 ≡ err e
      → (container_ran env j r s).1.info.exit_code ≡ pos 0
  unfolding container_ran
  container_ran_err (ok (code, stderr)) e h = absurd (cc)
  container_ran_err (err d) e h = refl

module _ (env : Env) (j : Job) (cfg : Config) (s : State) where
  -- A container that could not be run leaves the exit code of a success, 0, in the info.
  pub run_container-exit_code_of_error :
      (e : GoError)
      → (run_container env j cfg s).0 ≡ err e
      → (run_container env j cfg s).1.info.exit_code ≡ pos 0
  unfolding run_container
  run_container-exit_code_of_error e h =
      container_ran_err env j cfg (start_container env j cfg (write_log env j) s).1 _ e h

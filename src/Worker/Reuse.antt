-- ===== src/Worker/Reuse.antt =====
-- cmd/mistryd/worker.go: a build that was published answers the next request for its job.
use mistry.Base.{refl, ◌≡◌, ℕ, Bool, some, [], ◌∷◌, ◌++◌, ◌==◌, list_eq, nat_eq, false, ◌∙◌}
use mathlib.Core.Path.{sym, ap, subst}
use mistry.Base.Text.{Str}
use mistry.Types.{ok, container_success_exit_code}
use mistry.Paths.{FilePath, join, build_info_fname}
use mistry.Files.{Node, file, text, follow}
use mistry.System.{Env, State}
use mistry.Job.{Config, Job, build_log_path_of}
use mistry.Worker.{build}
use mistry.Worker.Cache.{Quiet, Stored, build-hit, hit, hit_state}
use mistry.Worker.Finish.{finished, without_logs, finish_build-info}

join_name : (p : FilePath) → join p (build_info_fname ∷ []) ≡ p ++ (build_info_fname ∷ [])
unfolding join
join_name p = refl

module _ (env : Env) (j : Job) (cfg : Config) (metrics : Bool) (start : ℕ) (s : State) where
  abbrev after : State
  after = (finished env j cfg metrics start s).1

  -- If the part of a build after its bootstrap returns no error and its exit code is 0, its info
  -- file has its name directly below the pending path, the path of that name below the ready path is
  -- not the `latest` path, and the ready path then exists and holds a log, then the next build of a job with this ready path, where no call fails, leaves every file
  -- alone, makes no call but that of the metrics, and returns the info of the first build, marked
  -- as cached, with that log and without the error output of the container.
  pub finish_build-reused :
      (later : Env) (k : Job) (other : Config) (measured : Bool) (now : ℕ) (here : Node) (log : Str)
      → Quiet later
      → k.ready_build_path ≡ j.ready_build_path
      → j.build_info_file_path ≡ j.pending_build_path ++ (build_info_fname ∷ [])
      → (j.ready_build_path ++ (build_info_fname ∷ []) == j.latest_build_path) ≡ false
      → (finished env j cfg metrics start s).0 ≡ ok tt
      → after.info.exit_code ≡ container_success_exit_code
      → follow after.files j.ready_build_path ≡ some here
      → after.files.node (build_log_path_of j.ready_build_path) ≡ some (file (text log))
      → build later k other measured now after
        ≡ (ok (hit (without_logs after.info) log), hit_state k measured after)
  finish_build-reused later k other measured now here log quiet same place apart h code found logs =
      build-hit later quiet k other after (without_logs after.info) log measured
        (subst (λ p. Stored after.files p (without_logs after.info) log) (sym same)
          (record {
            here = here;
            found = found;
            info =
                ap after.files.node (join_name j.ready_build_path)
                ∙ finish_build-info env j cfg metrics start s build_info_fname place apart h;
            logs = logs;
          }))
        now code

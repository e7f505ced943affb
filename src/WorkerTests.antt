-- ===== src/WorkerTests.antt =====
-- Runs of the worker, and its theorems at concrete builds.
use mistry.Types.{ok}
use mistry.Docker.{start_container, build_image, rename_if_exists, deferred}
use mistry.Base.{◌≡◌, refl, true, none, some, ◌++◌, ◌∷◌, []}
use mistry.Base.Int.{ℤ, pos}
use mistry.System.{State, for_each, syscall, external}
use mistry.Fixture.{calm, config, foo_job, start_state, installed, pieces, parameters}
use mistry.Worker.{build, prepare, finish_build, check_cache, record_outcome, publish, link_latest}
use mistry.Worker.Bootstrap.{persist_build_info, bootstrap_project, bootstrap_build_dir}
use mistry.Worker.Running.{run_build, build_and_run, run_container}
use mistry.Job.{
  read_job_build_info, with_logs, decode_info, read_job_logs, clone_src_path, job_of, seed, Job,
}
use mistry.Utils.{ensure_dir_exists, ensure_found}
use mistry.Paths.{join, build_info_fname, is_name}
use mistry.Files.{
  stat, lstat, mkdir, write_file, append_file, read_file, remove, remove_all, rename, symlink,
  eval_symlinks, link, file, json_info, dir,
}
use mistry.Base.Dict.{lookup}
use mistry.Base.Text.{codes, Str}
use mistry.Worker.Safety.{build-keeps_others, build-keeps_latest}
use mistry.Job.Placement.{IsPlaced, job_of-IsPlaced}
use mistry.Worker.Finish.{without_logs, finish_build-latest, finish_build-info}
use mistry.Worker.Cache.{hit, hit_state}
use mistry.Worker.Reuse.{finish_build-reused}

-- A whole build of the project, with exit code `code`.
unfoldable pub built : ℤ → State
unfolding build prepare finish_build check_cache run_build build_and_run run_container
    record_outcome publish link_latest start_container build_image rename_if_exists
    persist_build_info bootstrap_project bootstrap_build_dir deferred read_job_build_info with_logs
    decode_info read_job_logs clone_src_path job_of ensure_dir_exists ensure_found for_each syscall
    external join stat lstat mkdir write_file append_file read_file remove remove_all rename symlink
    eval_symlinks lookup
built code =
    (build (calm code) (foo_job (codes "g")) (config (calm code)) true 1000
      (start_state installed)).1

built_exit : (built (pos 7)).info.exit_code ≡ pos 7
unfolding built
built_exit = refl

abbrev group : Str
group = codes "g"

abbrev pub job : Job
job = foo_job group

-- The job of the tests lies under build/foo.
pub foo-IsPlaced :
    (g : Str) → is_name g ≡ true → IsPlaced (pieces ("build" ∷ "foo" ∷ [])) (foo_job g)
unfolding seed
foo-IsPlaced g named =
    job_of-IsPlaced (λ s. 1 ∷ s) (codes "foo") parameters g (config (calm (pos 0))) [] 1000 1 _ refl
      refl (λ _. named) (refl, (refl, tt))

job_of-IsPlaced_example : IsPlaced (pieces ("build" ∷ "foo" ∷ [])) job
unfolding seed
job_of-IsPlaced_example =
    job_of-IsPlaced (λ s. 1 ∷ s) (codes "foo") parameters group (config (calm (pos 0))) [] 1000 1 _
      refl refl (λ _. refl) (refl, (refl, tt))

-- A build that exits with 7 makes no link.
build-keeps_latest_example : (built (pos 7)).files.node job.latest_build_path ≡ none
unfolding built
build-keeps_latest_example =
    build-keeps_latest (calm (pos 7)) (foo-IsPlaced group refl) (config (calm (pos 7))) refl true
      1000 (start_state installed) (λ e. cc e)

build-keeps_others_example :
    (built (pos 0)).files.node (pieces ("build" ∷ "foo" ∷ "ready" ∷ "other" ∷ "data" ∷ [])) ≡ none
unfolding built
build-keeps_others_example =
    build-keeps_others (calm (pos 0)) (foo-IsPlaced group refl) (config (calm (pos 0))) refl true
      1000 (start_state installed) (codes "other") (pieces ("data" ∷ [])) (λ e. cc e)

-- The state after the bootstrap, from which the rest of the build runs.
prepared : ℤ → State
unfolding built
prepared code = (prepare (calm code) job (config (calm code)) (start_state installed)).1

finish_build-latest_example :
    (finish_build
        (calm (pos 0))
        job
        (config (calm (pos 0)))
        true
        1000
        (prepared (pos 0))).1.files.node
      job.latest_build_path
    ≡ some (link job.ready_build_path)
unfolding built prepared
finish_build-latest_example =
    finish_build-latest (calm (pos 0)) job (config (calm (pos 0))) true 1000 (prepared (pos 0)) refl
      refl

finish_build-info_example :
    (finish_build
        (calm (pos 0))
        job
        (config (calm (pos 0)))
        true
        1000
        (prepared (pos 0))).1.files.node
      (job.ready_build_path ++ (build_info_fname ∷ []))
    ≡ some (
        file (
          json_info (
            without_logs
              (finish_build
                (calm (pos 0))
                job
                (config (calm (pos 0)))
                true
                1000
                (prepared (pos 0))).1.info)))
unfolding built prepared
finish_build-info_example =
    finish_build-info (calm (pos 0)) job (config (calm (pos 0))) true 1000 (prepared (pos 0))
      build_info_fname refl refl refl

abbrev first : State
first = (finish_build (calm (pos 0)) job (config (calm (pos 0))) true 1000 (prepared (pos 0))).1

finish_build-reused_example :
    build (calm (pos 3)) job (config (calm (pos 3))) true 2000 first
    ≡ (ok (hit (without_logs first.info) (codes "loglog")), hit_state job true first)
unfolding built prepared
finish_build-reused_example =
    finish_build-reused (calm (pos 0)) job (config (calm (pos 0))) true 1000 (prepared (pos 0))
      (calm (pos 3)) job (config (calm (pos 3))) true 2000 dir (codes "loglog") (λ t. refl) refl
      refl refl refl refl refl refl

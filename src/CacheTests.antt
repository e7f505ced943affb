-- ===== src/CacheTests.antt =====
-- The cache, the coalescing and the ids at concrete jobs.
use mistry.Base.{◌≡◌, refl, some, [], ◌∷◌, true, false, ◌++◌}
use mistry.Base.Text.{codes}
use mistry.Base.Int.{pos, ℤ}
use mistry.Types.{ok, message, BuildInfo, new_build_info}
use mistry.Worker.Cache.{Stored, build-hit, check_cache-failed, hit, hit_state, dropped_state}
use mathlib.Core.List.{Permᴰ}
use mistry.Files.{dir, Files, put_node, file, json_info, text}
use mistry.Base.Dict.{lookup}
use mistry.WorkerTests.{built, job}
use mistry.Job.{job_of}
use mistry.JobQueue.{JobQueue, is_queued, new_job_queue}
use mistry.Worker.{check_cache, build, go_on}
use mistry.Worker.Bootstrap.{work_err}
use mistry.Worker.Running.{run_container}
use mistry.Work.{work, timer, initial_info}
use mistry.Fixture.{failing_at, config, calm, start_state, installed}
use mistry.Job.Identity.{job_of-same_id, job_of-id_collision}
use mistry.Work.Laws.{answer, work-is_queued, work-coalesces}
use mistry.Worker.Container.{run_container-exit_code_of_error}
use mistry.System.{State}
use mistry.Paths.{build_info_fname, build_log_fname}

-- A ready build of the job with exit code `code`, and its log.
abbrev stored_as : ℤ → BuildInfo
stored_as code = record (new_build_info 1000) { exit_code = code }

abbrev store : ℤ → Files
store code =
    put_node (job.ready_build_path ++ (build_info_fname ∷ []))
      (some (file (json_info (stored_as code))))
      (put_node (job.ready_build_path ++ (build_log_fname ∷ [])) (some (file (text (codes "log"))))
        (put_node job.ready_build_path (some dir) installed))

abbrev before : ℤ → State
before code = start_state (store code)

stored : (code : ℤ) → Stored (store code) job.ready_build_path (stored_as code) (codes "log")
unfolding built
stored code = record { here = dir; found = refl; info = refl; logs = refl }

build-hit_example :
    build (calm (pos 0)) job (config (calm (pos 0))) true 1000 (before (pos 0))
    ≡ (ok (hit (stored_as (pos 0)) (codes "log")), hit_state job true (before (pos 0)))
build-hit_example =
    build-hit (calm (pos 0)) (λ t. refl) job (config (calm (pos 0))) (before (pos 0))
      (stored_as (pos 0)) (codes "log") true (stored (pos 0)) 1000 refl

check_cache-failed_example :
    check_cache (calm (pos 7)) job (config (calm (pos 7))) false (before (pos 7))
    ≡ (ok go_on, dropped_state job (before (pos 7)))
unfolding built
check_cache-failed_example =
    check_cache-failed (calm (pos 7)) (λ t. refl) job (config (calm (pos 7))) (before (pos 7))
      (stored_as (pos 7)) (codes "log") false (stored (pos 7)) refl (λ e. cc e)

-- The job is being built: it is not ready at the first tick, and is at the second.
abbrev busy : JobQueue
busy = record { jobs = (job.id, true) ∷ [] }

work-coalesces_example :
    let w =
      work
        (calm (pos 0))
        job
        true
        (config (calm (pos 0)))
        (timer installed ∷ timer (store (pos 0)) ∷ [])
        busy
        (start_state installed) in
    (w.0.0 ≡ ok (answer (initial_info job 1000) (stored_as (pos 0)))) × (w.1 ≡ busy)
unfolding built
work-coalesces_example =
    work-coalesces (calm (pos 0)) (λ t. refl) job true (config (calm (pos 0))) (installed ∷ [])
      (store (pos 0)) (stored_as (pos 0)) [] busy (start_state installed) refl (refl, tt)
      (record { here = dir; found = refl; info = refl })

work-is_queued_example :
    is_queued
      (work
        (calm (pos 0))
        job
        true
        (config (calm (pos 0)))
        []
        new_job_queue
        (start_state installed)).1
      job.id
    ≡ false
unfolding lookup
work-is_queued_example =
    work-is_queued (calm (pos 0)) job true (config (calm (pos 0))) [] new_job_queue
      (start_state installed) job.id

failed_container_code :
    (run_container
      (failing_at 1 (pos 3))
      job
      (config (calm (pos 3)))
      (start_state installed)).1.info.exit_code
    ≡ pos 0
failed_container_code =
    run_container-exit_code_of_error (failing_at 1 (pos 3)) job (config (calm (pos 3)))
      (start_state installed)
      (work_err (codes "could not start docker container") (some (message (codes "no"))))
      (unfold built in refl)

job_of-same_id_example :
    (job_of
      (λ s. 1 ∷ s)
      (codes "foo")
      ((codes "_q", codes "2") ∷ (codes "a", codes "1") ∷ (codes "b", codes "2") ∷ [])
      []
      (config (calm (pos 0)))
      []
      0).id
    ≡ (job_of
        (λ s. 1 ∷ s)
        (codes "foo")
        ((codes "b", codes "2") ∷ (codes "a", codes "1") ∷ [])
        []
        (config (calm (pos 0)))
        []
        5).id
unfolding built
job_of-same_id_example =
    job_of-same_id (λ s. 1 ∷ s) (codes "foo") [] [] (config (calm (pos 0))) 0 5 (codes "_q")
      (codes "2") {d = (codes "a", codes "1") ∷ (codes "b", codes "2") ∷ []} (Permᴰ.swap refl refl)
      (refl, (refl, tt)) refl

job_of-id_collision_example :
    (job_of (λ s. 1 ∷ s) (codes "foo") [] (codes "g") (config (calm (pos 0))) [] 0).id
    ≡ (job_of (λ s. 1 ∷ s) (codes "foo") ((codes "g", []) ∷ []) [] (config (calm (pos 0))) [] 0).id
job_of-id_collision_example =
    job_of-id_collision (λ s. 1 ∷ s) (codes "foo") (codes "g") [] (config (calm (pos 0))) 0 0 refl

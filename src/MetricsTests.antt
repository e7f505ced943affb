-- ===== src/MetricsTests.antt =====
-- The collectors of cmd/mistryd/metrics/metrics.go after a build and an answer from the cache.
use mistry.Base.{◌+◌, ◌≤◌, ◌≡◌, refl, inl, true, [], ◌∷◌, nat_eq, list_eq}
use mistry.Base.Text.{codes}
use mistry.Types.{ok}
use mistry.Base.Int.{pos}
use mistry.System.{Env, State}
use mistry.JobQueue.{new_job_queue, add, delete}
use mistry.Work.{work, begin_work, coalesce, coalesce_tick}
use mistry.Metrics.{samples_of, record_hosted_builds, sets, builds_hosted}
use mistry.Metrics.Tally.{
  is_started, is_finished, is_cached, is_incremental, is_succeeded, is_failed, value, ended,
}
use mistry.Metrics.Balance.{History, started, works, metrics-balance}
use mistry.WorkerTests.{built, job}
use mistry.Fixture.{calm, config, start_state, installed, pieces}
use mistry.Index.{read_dir}

abbrev env : Env
env = calm (pos 0)

abbrev first : State
first = (work env job true (config env) [] new_job_queue (start_state installed)).0.1

abbrev second : State
second = (work env job true (config env) [] new_job_queue first).0.1

two_runs : History second.calls
two_runs =
    works env job (config env) [] new_job_queue first
      (works env job (config env) [] new_job_queue (start_state installed) started (inl refl))
      (inl refl)

metrics-balance_example :
    (ended (codes "foo") (samples_of second.calls)
      ≤ value is_started (codes "foo") (samples_of second.calls))
    × ((value is_finished (codes "foo") (samples_of second.calls)
          ≡ value is_succeeded (codes "foo") (samples_of second.calls)
            + value is_failed (codes "foo") (samples_of second.calls))
        × (value is_incremental (codes "foo") (samples_of second.calls)
            ≤ value is_succeeded (codes "foo") (samples_of second.calls)))
metrics-balance_example = metrics-balance second.calls two_runs (codes "foo")

-- One build finished, and one was found in the cache.
counted :
    (value is_started (codes "foo") (samples_of second.calls) ≡ 2)
    × ((value is_finished (codes "foo") (samples_of second.calls) ≡ 1)
        × (value is_cached (codes "foo") (samples_of second.calls) ≡ 1))
unfolding built work add delete begin_work samples_of coalesce coalesce_tick
counted = (refl, (refl, refl))

hosted_builds :
    (record_hosted_builds env (pieces ("build" ∷ [])) (pieces ("projects" ∷ [])) first).0
    ≡ ok (sets builds_hosted (codes "foo") 1 ∷ [])
unfolding built work add delete begin_work record_hosted_builds read_dir
hosted_builds = refl

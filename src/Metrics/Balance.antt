-- ===== src/Metrics/Balance.antt =====
-- How the collectors of cmd/mistryd/metrics/metrics.go agree after any number of calls of Work.
use mistry.Metrics.Ends.{starts-IsCounted, ends-IsCounted}
use mistry.Base.{◌+◌, ◌≤◌, ◌≡◌, true, List, [], arith, count_if, bit, ◌==◌, nat_eq, list_eq}
use mistry.Base.Text.{Str}
use mistry.System.{Env, State, Call}
use mistry.Job.{Config, Job}
use mistry.JobQueue.{JobQueue}
use mistry.Work.{Tick, work}
use mistry.Work.Counting.{work-counts}
use mistry.Metrics.{samples_of}
use mistry.Metrics.Tally.{
  is_started, is_finished, is_incremental, is_succeeded, is_failed, value, ended, starts, ends,
  started-calls, ended-calls, split-calls, part-calls,
}
use mistry.Worker.Counting.Adapters.{IsAdapter, adapter-AdapterAdds}

-- The calls that a server with metrics makes, from its start on: those of any number of calls of
-- `Work`, one after the other.
pub data History : List Call → Type 0 where
  started : History []
  works :
      (env : Env) (j : Job) (cfg : Config) (ticks : List Tick) (jq : JobQueue) (s : State)
      → History s.calls
      → IsAdapter env cfg.file_system
      → History (work env j true cfg ticks jq s).0.1.calls

ends-starts :
    (calls : List Call)
    → History calls
    → (p : Str) → count_if (ends p) calls ≤ count_if (starts p) calls
ends-starts _ started p = omega arith
ends-starts _ (works env j cfg ticks jq s before adapter) p =
    let ended_so =
      work-counts env (ends p) (bit (j.project == p)) j (ends-IsCounted p j) true cfg
        (adapter-AdapterAdds env (ends p) (ends-IsCounted p j).silent cfg.file_system adapter) ticks
        jq s in
    let started_so =
      work-counts env (starts p) 0 j (starts-IsCounted p j) true cfg
        (adapter-AdapterAdds env (starts p) (starts-IsCounted p j).silent cfg.file_system adapter)
        ticks jq s in
    ground (arith, ended_so.1, started_so.0, ends-starts s.calls before p)

-- After any number of calls of Work, with one of the two adapters, for each project: the builds that
-- finished, coalesced or were found in the cache are together at most those that started; those that
-- finished are those whose duration was observed as a success or as a failure; and those that were
-- incremental are at most those that succeeded.
pub metrics-balance :
    (calls : List Call)
    → History calls
    → (project : Str)
    → (ended project (samples_of calls) ≤ value is_started project (samples_of calls))
      × ((value is_finished project (samples_of calls)
            ≡ value is_succeeded project (samples_of calls)
              + value is_failed project (samples_of calls))
          × (value is_incremental project (samples_of calls)
              ≤ value is_succeeded project (samples_of calls)))
metrics-balance calls h p = (
  omega (arith, ended-calls p calls, started-calls p calls, ends-starts calls h p),
  (split-calls p calls, part-calls p calls),
)

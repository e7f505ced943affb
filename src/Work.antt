-- ===== src/Work.antt =====
-- cmd/mistryd/worker.go: `Work`, with the coalescing of identical jobs.
pub mod Laws
pub mod Counting
use mistry.Base.{String, ℕ, Bool, true, false, none, some, List, [], ◌∷◌, if◌then◌else◌}
use mistry.Base.Text.{codes}
use mistry.Types.{is_not_exist, Result, ok, err, BuildInfo, new_build_info, rsync}
use mistry.Paths.{join, render, data_dir, artifacts_dir}
use mistry.Files.{Files, stat, Node}
use mistry.System.{
  Env, State, Call, T, try, pure, update_info, read_info, record_call, when, syscall, ◌>>=◌, ◌>>◌,
}
use mistry.Job.{Config, Job, read_job_build_info}
use mistry.JobQueue.{JobQueue, add, delete}
use mistry.Worker.{Flow, done, go_on, error_result, build}
use mistry.Worker.Bootstrap.{work_err, get_job_url}
use mistry.Base.Int.{ℤ}

-- What a coalescing job meets next: the end of its context, or a tick of its timer, with the
-- files as the other goroutines have left them by then.
pub data Tick : Type 0 where
  cancelled : Tick
  timer : Files → Tick

-- The fields of `BuildInfo` that `Work` sets first.
abbrev pub initial_info : Job → ℕ → BuildInfo
initial_info j now = record (new_build_info now) {
  path = render (join j.ready_build_path (data_dir ∷ artifacts_dir ∷ []));
  transport_method = rsync;
  params = j.params;
  started_at = j.started_at;
  url = get_job_url j;
  group = j.group;
}

module _ (env : Env) (j : Job) (metrics : Bool) where
  abbrev error_flow : String → State → Result Flow × State
  error_flow s st = (ok (error_result (some st.info) (work_err (codes s) none)), st)

  -- `ExitCode`, whose code is irrelevant beside an error.
  unfoldable pub exit_code_of : T ℤ
  exit_code_of = do stored ← read_job_build_info env j.ready_build_path false; pure stored.exit_code

  -- The result with the exit code.
  exit_code_read : Result ℤ → T Flow
  exit_code_read (err e) = do info ← read_info; pure (error_result (some info) e)
  exit_code_read (ok code) = do
    update_info λ i. record i { exit_code = code; coalesced = true }
    when metrics (record_call (Call.build_coalesced j.project))
    info ← read_info
    pure (done (record { build_info = some info; error = none }))

  ready_seen : Result Node → T Flow
  unfolding exit_code_read
  ready_seen (ok _) = do code ← try exit_code_of; exit_code_read code
  ready_seen (err e) = if is_not_exist e then pure go_on else (do
    info ← read_info
    pure (error_result (some info) (work_err (codes "could not coalesce") (some e))))

  -- What the other goroutines have done to the files since the last tick.
  abbrev others_ran : Files → T (Unit {0})
  others_ran fs s = (ok tt, record s { files = fs })

  -- One round of the loop.
  unfoldable pub coalesce_tick : Tick → T Flow
  unfolding ready_seen
  coalesce_tick cancelled = error_flow "context cancelled while coalescing"
  coalesce_tick (timer fs) = do
    others_ran fs
    found ← try (syscall env (stat j.ready_build_path))
    ready_seen found

  -- The loop: it goes on until a round returns. With no tick left it still waits.
  unfoldable pub coalesce : List Tick → T Flow
  coalesce [] = pure go_on
  coalesce (t ∷ ts) =
      let rest = coalesce ts in
      coalesce_tick t >>= λ flow. elim flow [ done r ↦ pure (done r) | go_on ↦ rest ]

  -- The first statements of `Work`.
  unfoldable pub begin_work : ℕ → T (Unit {0})
  begin_work now = do
    update_info λ _. initial_info j now
    when metrics (record_call (Call.build_started j.project))

  -- `Work`: the result (`go_on` while the job waits for the one it coalesces with), the state
  -- after it, and the queue.
  unfoldable pub work : Config → List Tick → JobQueue → State → (Result Flow × State) × JobQueue
  work cfg ticks jq s =
      let now = env.now s.tick in
      let started = begin_work now s in
      let (queue, added) = add jq j in
      if added
      then ((build env j cfg metrics now) started.1, delete queue j)
      else (coalesce ticks started.1, queue)

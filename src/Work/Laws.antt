-- ===== src/Work/Laws.antt =====
-- cmd/mistryd/worker.go: the queue of `Work` and its coalescing.
use mistry.Base.{
  refl, ◌≡◌, none, some, arith, Bool, ◌∷◌, [], List, nat_eq, list_eq, list_beq_iff, suc, true, All,
  map, ◌++◌, ℕ,
}
use mistry.Base.Text.{Str}
use mistry.Types.{BuildInfo, ok}
use mistry.Paths.{FilePath, join, build_info_fname}
use mistry.Files.{Files, Node, file, json_info, stat, follow, read_file}
use mistry.System.{Env, State, syscall}
use mistry.Job.{Config, Job, read_job_build_info}
use mistry.JobQueue.{JobQueue, add, is_queued, add_lem, delete_lem}
use mistry.Worker.{go_on}
use mistry.Worker.Cache.{Quiet}
use mistry.Work.{
  Tick, timer, coalesce_tick, work, ready_seen, coalesce, Flow, exit_code_read, done, initial_info,
  begin_work, exit_code_of,
}

-- However `Work` ends, the queue holds the jobs that it held before.
pub work-is_queued :
    (env : Env) (j : Job) (metrics : Bool) (cfg : Config) (ticks : List Tick) (jq : JobQueue)
    (s : State) (k : Str)
    → is_queued (work env j metrics cfg ticks jq s).1 k ≡ is_queued jq k
unfolding work
work-is_queued env j metrics cfg ticks jq s k =
    ground (arith, add_lem jq j k, delete_lem (add jq j).0 j k, list_beq_iff k j.id)

-- The ready path of the job is there, with this info.
pub record ReadyWith (fs : Files) (ready : FilePath) (bi : BuildInfo) : Type 0 where
  pub here : Node
  pub found : follow fs ready ≡ some here
  pub info : fs.node (join ready (build_info_fname ∷ [])) ≡ some (file (json_info bi))

-- The result of a job that coalesced with one whose info is `bi`.
abbrev pub answer : BuildInfo → BuildInfo → Flow
answer info bi = done (record {
  build_info = some (record info { exit_code = bi.exit_code; coalesced = true });
  error = none;
})

module _ (env : Env) (quiet : Quiet env) (j : Job) (metrics : Bool) where
  tick_waits :
      (fs : Files) (s : State)
      → follow fs j.ready_build_path ≡ none
      → coalesce_tick env j metrics (timer fs) s
        ≡ (ok go_on, record s { files = fs; tick = suc s.tick })
  unfolding coalesce_tick ready_seen syscall stat
  tick_waits fs s h = ground (arith, quiet s.tick)

  tick_answers :
      (fs : Files) (bi : BuildInfo) (s : State)
      → ReadyWith fs j.ready_build_path bi
      → (coalesce_tick env j metrics (timer fs) s).0 ≡ ok (answer s.info bi)
  unfolding coalesce_tick ready_seen exit_code_of exit_code_read syscall stat read_job_build_info
      read_file
  tick_answers fs bi s r = ground (arith, quiet s.tick, quiet (suc s.tick), r.found, r.info)

  -- A job coalesces for as long as the ready path is not there, also if the build that it waits for
  -- has ended without one.
  coalesce_waits :
      (ticks : List Files) (s : State)
      → All (λ f. follow f j.ready_build_path ≡ none) ticks
      → (coalesce env j metrics (map timer ticks) s).0 ≡ ok go_on
  unfolding coalesce
  coalesce_waits [] s w = refl
  coalesce_waits (f ∷ ticks) s (w, ws) =
      ground (
        arith,
        tick_waits f s w,
        coalesce_waits ticks (record s { files = f; tick = suc s.tick }) ws,
      )

  -- The loop goes through the ticks at which the build is not ready, and ends at the next one.
  coalesce_answers :
      (before : List Files) (fs : Files) (bi : BuildInfo) (rest : List Tick) (s : State)
      → All (λ f. follow f j.ready_build_path ≡ none) before
      → ReadyWith fs j.ready_build_path bi
      → (coalesce env j metrics (map timer before ++ (timer fs ∷ rest)) s).0 ≡ ok (answer s.info bi)
  unfolding coalesce
  coalesce_answers [] fs bi rest s w r = ground (arith, tick_answers fs bi s r)
  coalesce_answers (f ∷ before) fs bi rest s (w, ws) r = ground (
    arith,
    tick_waits f s w,
    coalesce_answers before fs bi rest (record s { files = f; tick = suc s.tick }) ws r,
  )

  begin_work-info :
      (now : ℕ) (s : State) → (begin_work env j metrics now s).1.info ≡ initial_info j now
  unfolding begin_work
  begin_work-info now s = ground arith

  -- A job whose like is being built waits until that build is ready, however long it takes, and
  -- returns its exit code, marked as coalesced; the queue keeps the job that is being built.
  pub work-coalesces :
      (cfg : Config) (before : List Files) (fs : Files) (bi : BuildInfo) (rest : List Tick)
      (jq : JobQueue) (s : State)
      → is_queued jq j.id ≡ true
      → All (λ f. follow f j.ready_build_path ≡ none) before
      → ReadyWith fs j.ready_build_path bi
      → let w = work env j metrics cfg (map timer before ++ (timer fs ∷ rest)) jq s in
        (w.0.0 ≡ ok (answer (initial_info j (env.now s.tick)) bi)) × (w.1 ≡ jq)
  unfolding work add
  work-coalesces cfg before fs bi rest jq s q ws r = ground (
    arith,
    coalesce_answers before fs bi rest (begin_work env j metrics (env.now s.tick) s).1 ws r,
    begin_work-info (env.now s.tick) s,
  )

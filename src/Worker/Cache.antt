-- ===== src/Worker/Cache.antt =====
-- cmd/mistryd/worker.go: the build result cache.
use mistry.Base.{
  ◌≡◌, none, some, arith, ℕ, true, ◌∷◌, [], nat_eq, list_eq, if◌then◌else◌, suc, Bool, ◌≢◌, ◌++◌,
}
use mistry.Base.Int.{int_eq, int_beq_iff}
use mistry.Types.{BuildInfo, ok, container_success_exit_code}
use mistry.Paths.{FilePath, join, build_info_fname}
use mistry.Files.{Files, Node, file, text, json_info, read_file, follow, stat, remove_all}
use mistry.System.{Env, State, syscall, plainfs, Call}
use mistry.Job.{Config, Job, read_job_build_info, build_log_path_of}
use mistry.Worker.{Flow, build, check_cache, done, go_on}
use mistry.Base.Text.{Str}

-- No call fails for a reason of the environment's.
abbrev pub Quiet : Env → Type 0
Quiet env = (t : ℕ) → env.fault t ≡ none

-- The ready path holds a build with this info and this log.
pub record Stored (fs : Files) (ready : FilePath) (bi : BuildInfo) (log : Str) : Type 0 where
  pub here : Node
  pub found : follow fs ready ≡ some here
  pub info : fs.node (join ready (build_info_fname ∷ [])) ≡ some (file (json_info bi))
  pub logs : fs.node (build_log_path_of ready) ≡ some (file (text log))

-- The result of a hit, and the states after a hit and after the removal of a failed build.
abbrev pub hit : BuildInfo → Str → Flow
hit bi log = done (record {
  build_info = some (record bi { container_stdouterr = log; cached = true });
  error = none;
})

abbrev pub hit_state : Job → Bool → State → State
hit_state j metrics s = record s {
  tick = suc (suc (suc s.tick));
  calls = if metrics then s.calls ++ (Call.cache_used j.project ∷ []) else s.calls;
}

abbrev pub dropped_state : Job → State → State
dropped_state j s = record s {
  tick = suc (suc (suc (suc s.tick)));
  files = (remove_all j.ready_build_path s.files).1;
}

module _ (env : Env) (quiet : Quiet env) (j : Job) (cfg : Config) (s : State) where
  info_back :
      (bi : BuildInfo) (log : Str)
      → Stored s.files j.ready_build_path bi log
      → read_job_build_info env j.ready_build_path true s
        ≡ (ok (record bi { container_stdouterr = log }), record s { tick = suc (suc s.tick) })
  unfolding read_job_build_info syscall read_file
  info_back bi log st = ground (arith, quiet s.tick, quiet (suc s.tick), st.info, st.logs)

module _ (env : Env) (quiet : Quiet env) (j : Job) (cfg : Config) (s : State) where
  module _ (bi : BuildInfo) (log : Str) (metrics : Bool)
      (st : Stored s.files j.ready_build_path bi log) where
    check_cache-hit :
        bi.exit_code ≡ container_success_exit_code
        → check_cache env j cfg metrics s ≡ (ok (hit bi log), hit_state j metrics s)
    unfolding check_cache syscall stat
    check_cache-hit h = ground (
      arith,
      quiet s.tick,
      st.found,
      info_back env quiet j cfg (record s { tick = suc s.tick }) bi log st,
      int_beq_iff bi.exit_code container_success_exit_code,
    )

    -- A ready build with exit code 0 is returned: with its log, marked as cached, whatever its
    -- `ErrBuild` says. No file changes, and no call leaves the program but that of the metrics.
    pub build-hit :
        (start : ℕ)
        → bi.exit_code ≡ container_success_exit_code
        → build env j cfg metrics start s ≡ (ok (hit bi log), hit_state j metrics s)
    unfolding build
    build-hit start h = ground (arith, check_cache-hit h)

    -- A ready build with another exit code is removed, and the build goes on.
    pub check_cache-failed :
        cfg.file_system ≡ plainfs env
        → bi.exit_code ≢ container_success_exit_code
        → check_cache env j cfg metrics s ≡ (ok go_on, dropped_state j s)
    unfolding check_cache syscall stat remove_all
    check_cache-failed plain h = ground (
      arith,
      quiet s.tick,
      quiet (suc (suc (suc s.tick))),
      st.found,
      info_back env quiet j cfg (record s { tick = suc s.tick }) bi log st,
      int_beq_iff bi.exit_code container_success_exit_code,
    )

  -- With no ready build the cache is passed by.
  pub check_cache-miss :
      (metrics : Bool)
      → follow s.files j.ready_build_path ≡ none
      → check_cache env j cfg metrics s ≡ (ok go_on, record s { tick = suc s.tick })
  unfolding check_cache syscall stat
  check_cache-miss metrics h = ground (arith, quiet s.tick)

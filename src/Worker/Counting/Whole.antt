-- ===== src/Worker/Counting/Whole.antt =====
-- cmd/mistryd/worker.go: the calls that are counted in `Work` of a job that does not coalesce.
use mistry.Base.{
  ℕ, ◌+◌, ◌≤◌, ◌≡◌, refl, inl, inr, Bool, true, false, none, some, arith, count_if, Bool-cases,
  ◌==◌, nat_eq, list_eq,
}
use mistry.Types.{Result, ok, err, BuildInfo, container_success_exit_code}
use mistry.Files.{Node, stat}
use mistry.System.{
  Env, State, Call, T, when, record_call, try, pure, syscall, bind_result, ◌>>=◌, ◌>>◌, read_info,
}
use mistry.System.Counting.{
  Adds, adds_rules, bind_adds, Adds-syscall, Adds-bind, Adds-seq, Adds-bind_last, Adds-pure,
  Adds-record_call, Adds-when, Adds-try,
}
use mistry.Base.Int.{int_eq}
use mistry.Worker.Counting.{IsCounted, AdapterAdds, Adds-finish_build}
use mistry.Job.{Config, Job, read_job_build_info}
use mistry.Worker.{
  prepare, finish_build, check_cache, ready_found, stored_read, use_cached, drop_failed, build,
  build_flow, Flow, done, go_on, WorkResult,
}
use mistry.Worker.Counting.Preparing.{Adds-prepare, Adds-read_job_build_info}

module _ (env : Env) (f : Call → Bool) (n : ℕ) (j : Job) (k : IsCounted f n j) (cfg : Config)
    (a : AdapterAdds f cfg.file_system) where
  Adds-use_cached : (metrics : Bool) (bi : BuildInfo) → Adds f n (use_cached env j metrics bi)
  unfolding use_cached
  Adds-use_cached metrics bi =
      Adds-bind_last f n (when metrics (record_call (Call.cache_used j.project))) _
        (Adds-when f n metrics _ (Adds-record_call f n _ k.cached)) λ _. search adds_rules

-- A part of `Work` that counts at most `n`, and nothing where the job goes on from it.
pub record FlowAdds (f : Call → Bool) (n : ℕ) (m : T Flow) : Type 0 where
  pub adds : Adds f n m
  pub still : (s : State) → (m s).0 ≡ ok go_on → count_if f (m s).1.calls ≤ count_if f s.calls

module _ (f : Call → Bool) (n : ℕ) where
  pub FlowAdds-quiet : (m : T Flow) → Adds f 0 m → FlowAdds f n m
  FlowAdds-quiet m h = record {
    adds = record { least = h.least; most = λ s. omega (arith, h.most s) };
    still = λ s e. omega (arith, h.most s);
  }

  result_still :
      {A : Type 0} (k : A → T Flow) (r : Result A) (s : State)
      → ((a : A) → FlowAdds f n (k a))
      → (bind_result k (r, s)).0 ≡ ok go_on
      → count_if f (bind_result k (r, s)).1.calls ≤ count_if f s.calls
  result_still k (ok a) s h e = (h a).still s e
  result_still k (err d) s h e = absurd (cc)

  pub FlowAdds-bind :
      {A : Type 0} (m : T A) (k : A → T Flow)
      → Adds f 0 m
      → ((a : A) → FlowAdds f n (k a))
      → FlowAdds f n (m >>= k)
  FlowAdds-bind m k h g = record {
    adds = Adds-bind f n m k h (λ a. (g a).adds);
    still = λ s e. omega (arith, h.most s, result_still k (m s).0 (m s).1 g e);
  }

module _ (f : Call → Bool) (n : ℕ) (k : Flow → T Flow)
    (ends : (r : WorkResult) → Adds f 0 (k (done r))) (goes : Adds f n (k go_on)) where
  flow_adds : (flow : Flow) → Adds f n (k flow)
  flow_adds (done r) = (FlowAdds-quiet f n (k (done r)) (ends r)).adds
  flow_adds go_on = goes

  flow_most :
      (r : Result Flow) (s t : State)
      → count_if f t.calls ≤ count_if f s.calls + n
      → (r ≡ ok go_on → count_if f t.calls ≤ count_if f s.calls)
      → count_if f (bind_result k (r, t)).1.calls ≤ count_if f s.calls + n
  flow_most (ok (done r)) s t h still = omega (arith, h, (ends r).most t)
  flow_most (ok go_on) s t h still = omega (arith, still refl, goes.most t)
  flow_most (err e) s t h still = h

  -- A part that returns or goes on, and what comes behind it.
  pub FlowAdds-then : (m : T Flow) → FlowAdds f n m → Adds f n (m >>= k)
  FlowAdds-then m h = record {
    least = (bind_adds f n n m k h.adds flow_adds).least;
    most = λ s. flow_most (m s).0 s (m s).1 (h.adds.most s) (h.still s);
  }

module _ (env : Env) (f : Call → Bool) (n : ℕ) (j : Job) (k : IsCounted f n j) (cfg : Config)
    (a : AdapterAdds f cfg.file_system) where
  Adds-drop_failed : (bi : BuildInfo) → Adds f 0 (drop_failed env j cfg bi)
  unfolding drop_failed
  Adds-drop_failed bi = search (adds_rules, a.remove) depth 8

  FlowAdds-use_cached :
      (metrics : Bool) (bi : BuildInfo) → FlowAdds f n (use_cached env j metrics bi)
  unfolding use_cached
  FlowAdds-use_cached true bi = record {
    adds = Adds-use_cached env f n j k cfg a true bi;
    still = λ s e. absurd (cc);
  }
  FlowAdds-use_cached false bi = record {
    adds = Adds-use_cached env f n j k cfg a false bi;
    still = λ s e. absurd (cc);
  }

  FlowAdds-stored_read :
      (metrics : Bool) (r : Result BuildInfo) → FlowAdds f n (stored_read env j cfg metrics r)
  unfolding stored_read
  FlowAdds-stored_read metrics (err e) = FlowAdds-quiet f n _ (Adds-pure f 0 _)
  FlowAdds-stored_read metrics (ok bi) =
      elim (Bool-cases (bi.exit_code == container_success_exit_code)) [
        | inl e ↦ rw e (FlowAdds-use_cached metrics bi)
        | inr e ↦ rw e (FlowAdds-quiet f n _ (Adds-drop_failed bi))
      ]

  FlowAdds-ready_found :
      (metrics : Bool) (r : Result Node) → FlowAdds f n (ready_found env j cfg metrics r)
  unfolding ready_found
  FlowAdds-ready_found metrics (ok m) =
      FlowAdds-bind f n (try (read_job_build_info env j.ready_build_path true)) _
        (Adds-try f 0 _ (Adds-read_job_build_info env f j.ready_build_path true))
        (FlowAdds-stored_read metrics)
  FlowAdds-ready_found metrics (err e) = FlowAdds-quiet f n _ (search adds_rules depth 8)

  FlowAdds-check_cache : (metrics : Bool) → FlowAdds f n (check_cache env j cfg metrics)
  unfolding check_cache
  FlowAdds-check_cache metrics =
      FlowAdds-bind f n (try (syscall env (stat j.ready_build_path))) _
        (Adds-try f 0 _ (Adds-syscall f 0 env _)) (FlowAdds-ready_found metrics)

  Adds-made :
      (metrics : Bool) (start : ℕ)
      → Adds f n (prepare env j cfg >> finish_build env j cfg metrics start)
  Adds-made metrics start =
      Adds-seq f n (prepare env j cfg) (finish_build env j cfg metrics start)
        (Adds-prepare env f n j k cfg a) (Adds-finish_build env f n j k cfg metrics start)

  Adds-told :
      (built : Result (Unit {0}))
      → Adds f 0 (
          read_info >>= λ info. pure (
            done (record {
              build_info = some info;
              error = elim built [ ok _ ↦ none | err e ↦ some e ];
            })))
  Adds-told built = search adds_rules depth 6

  Adds-goes_on : (metrics : Bool) (start : ℕ) → Adds f n (build_flow env j cfg metrics start go_on)
  unfolding build_flow
  Adds-goes_on metrics start =
      Adds-bind_last f n (try (prepare env j cfg >> finish_build env j cfg metrics start)) _
        (Adds-try f n _ (Adds-made metrics start)) Adds-told

  -- A build counts at most once.
  pub Adds-build : (metrics : Bool) (start : ℕ) → Adds f n (build env j cfg metrics start)
  unfolding build build_flow
  Adds-build metrics start =
      FlowAdds-then f n (build_flow env j cfg metrics start) (λ r. Adds-pure f 0 (done r))
        (Adds-goes_on metrics start) (check_cache env j cfg metrics) (FlowAdds-check_cache metrics)

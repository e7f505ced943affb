-- ===== src/Work/Counting.antt =====
-- cmd/mistryd/worker.go: the calls that are counted in `Work`, with coalescing.
use mistry.Worker.Counting.Preparing.{Adds-read_job_build_info}
use mistry.Base.{
  ℕ, ◌+◌, ◌≤◌, ◌≡◌, ◌≢◌, inl, inr, Bool, true, false, ◌&&◌, List, [], ◌∷◌, arith, count_if,
  count_if-append, bit, Bool-cases, nat_eq, list_eq,
}
use mistry.Types.{Result, ok, err}
use mistry.Files.{Node, stat}
use mistry.JobQueue.{JobQueue, add}
use mistry.System.{Env, State, Call, try, syscall}
use mistry.System.Counting.{Adds, adds_rules, Adds-syscall, Adds-seq_last, Adds-pure, Adds-try}
use mistry.Worker.Counting.{IsCounted, AdapterAdds}
use mistry.Worker.Counting.Whole.{
  FlowAdds, FlowAdds-quiet, FlowAdds-bind, FlowAdds-then, Adds-build,
}
use mistry.Job.{Config, Job}
use mistry.Worker.{done, go_on}
use mistry.Work.{
  Tick, cancelled, timer, exit_code_read, ready_seen, others_ran, coalesce_tick, coalesce,
  begin_work, work, ℤ, exit_code_of,
}
use mistry.Base.Int.{ℤ}

module _ (env : Env) (f : Call → Bool) (n : ℕ) (j : Job) (k : IsCounted f n j)
    (metrics : Bool) where
  -- The exit code of another build ends the loop.
  told : (code : ℤ) (b : Bool) (s : State) → (exit_code_read env j b (ok code) s).0 ≢ ok go_on
  unfolding exit_code_read
  told code true s e = cc
  told code false s e = cc

  FlowAdds-exit_code_read : (r : Result ℤ) → FlowAdds f n (exit_code_read env j metrics r)
  unfolding exit_code_read
  FlowAdds-exit_code_read (err e) = FlowAdds-quiet f n _ (search adds_rules depth 6)
  FlowAdds-exit_code_read (ok code) = record {
    adds = search (adds_rules, Adds-seq_last, k.coalesced) depth 10;
    still = λ s e. absurd (told code metrics s e);
  }

  Adds-exit_code_of : Adds f 0 (exit_code_of env j metrics)
  unfolding exit_code_of
  Adds-exit_code_of = search (adds_rules, Adds-read_job_build_info) depth 8

  FlowAdds-ready_seen : (r : Result Node) → FlowAdds f n (ready_seen env j metrics r)
  unfolding ready_seen
  FlowAdds-ready_seen (ok m) =
      FlowAdds-bind f n (try (exit_code_of env j metrics)) _ (Adds-try f 0 _ Adds-exit_code_of)
        FlowAdds-exit_code_read
  FlowAdds-ready_seen (err e) = FlowAdds-quiet f n _ (search adds_rules depth 8)

  FlowAdds-coalesce_tick : (t : Tick) → FlowAdds f n (coalesce_tick env j metrics t)
  unfolding coalesce_tick
  FlowAdds-coalesce_tick cancelled =
      FlowAdds-quiet f n _ (record { least = λ s. omega arith; most = λ s. omega arith })
  FlowAdds-coalesce_tick (timer fs) =
      FlowAdds-bind f n (others_ran env j metrics fs) _
        (record { least = λ s. omega arith; most = λ s. omega arith })
        λ _.
          FlowAdds-bind f n (try (syscall env (stat j.ready_build_path))) _
            (Adds-try f 0 _ (Adds-syscall f 0 env _)) FlowAdds-ready_seen

  Adds-coalesce : (ts : List Tick) → Adds f n (coalesce env j metrics ts)
  unfolding coalesce
  Adds-coalesce [] = Adds-pure f n go_on
  Adds-coalesce (t ∷ ts) =
      FlowAdds-then f n _ (λ r. Adds-pure f 0 (done r)) (Adds-coalesce ts)
        (coalesce_tick env j metrics t) (FlowAdds-coalesce_tick t)

  -- What the first statements count.
  begin_work_count :
      (now : ℕ) (s : State)
      → count_if f (begin_work env j metrics now s).1.calls
        ≡ count_if f s.calls + bit (metrics && f (Call.build_started j.project))
  unfolding begin_work
  begin_work_count now s = begun metrics
    where
      begun :
          (b : Bool)
          → count_if f (begin_work env j b now s).1.calls
            ≡ count_if f s.calls + bit (b && f (Call.build_started j.project))
      begun true = ground (arith, count_if-append f s.calls (Call.build_started j.project ∷ []))
      begun false = omega arith

  -- `Work` counts its start, and at most one end of any kind.
  pub work-counts :
      (cfg : Config)
      → AdapterAdds f cfg.file_system
      → (ticks : List Tick) (jq : JobQueue) (s : State)
      → let begun = count_if f s.calls + bit (metrics && f (Call.build_started j.project)) in
        let ended = count_if f (work env j metrics cfg ticks jq s).0.1.calls in
        (begun ≤ ended) × (ended ≤ begun + n)
  unfolding work
  work-counts cfg a ticks jq s =
      let start = env.now s.tick in
      let t = (begin_work env j metrics start s).1 in
      let b = Adds-build env f n j k cfg a metrics start in
      let c = Adds-coalesce ticks in
      elim (Bool-cases (add jq j).1) [
        | inl e ↦ rw e (
          omega (arith, begin_work_count start s, b.least t),
          omega (arith, begin_work_count start s, b.most t),
        )
        | inr e ↦ rw e (
          omega (arith, begin_work_count start s, c.least t),
          omega (arith, begin_work_count start s, c.most t),
        )
      ]

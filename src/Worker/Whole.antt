-- ===== src/Worker/Whole.antt =====
-- cmd/mistryd/worker.go: `Work` of a job that does not coalesce, from the cache to the end.
use mistry.Base.{◌≡◌, refl, ◌∙◌, ◌≢◌, ℕ, Bool, nat_eq, list_eq, inr, ◌⊎◌}
use mistry.Base.Int.{pos, int_eq}
use mistry.Types.{Result, ok, err, BuildInfo}
use mistry.Paths.{FilePath}
use mistry.Files.{Node}
use mistry.Files.Laws.{OpKeeps-stat}
use mistry.System.{Env, State, ◌>>◌, bind_result}
use mistry.System.Laws.{Keeps, keeps_rules}
use mistry.Job.{Config, Job}
use mistry.Worker.{
  Flow, done, go_on, check_cache, ready_found, stored_read, use_cached, drop_failed, build,
  build_flow, prepare, finish_build,
}
use mistry.Worker.Frame.{AdapterKeeps}
use mistry.Worker.Frame.Preparing.{Keeps-prepare, Keeps-read_job_build_info}
use mistry.Worker.Finish.{Apart, finish_build-keeps}

module _ (env : Env) (j : Job) (cfg : Config) (x : FilePath) (a : Apart j x)
    (ad : AdapterKeeps cfg.file_system j x) where
  Keeps-use_cached : (metrics : Bool) (bi : BuildInfo) → Keeps x (use_cached env j metrics bi)
  unfolding use_cached
  Keeps-use_cached metrics bi = search keeps_rules depth 8

  Keeps-drop_failed : (bi : BuildInfo) → Keeps x (drop_failed env j cfg bi)
  unfolding drop_failed
  Keeps-drop_failed bi = search (keeps_rules, ad.remove) depth 8

  Keeps-stored_read :
      (metrics : Bool) (r : Result BuildInfo) → Keeps x (stored_read env j cfg metrics r)
  unfolding stored_read
  Keeps-stored_read metrics (ok bi) = search (keeps_rules, Keeps-use_cached, Keeps-drop_failed)
  Keeps-stored_read metrics (err e) = search keeps_rules

  Keeps-ready_found : (metrics : Bool) (r : Result Node) → Keeps x (ready_found env j cfg metrics r)
  unfolding ready_found
  Keeps-ready_found metrics (ok n) =
      search (keeps_rules, Keeps-read_job_build_info, Keeps-stored_read) depth 8
  Keeps-ready_found metrics (err e) = search keeps_rules depth 8

  Keeps-check_cache : (metrics : Bool) → Keeps x (check_cache env j cfg metrics)
  unfolding check_cache
  Keeps-check_cache metrics = search (keeps_rules, OpKeeps-stat, Keeps-ready_found) depth 8

  module _ (metrics : Bool) (start : ℕ) where
    -- The build from its preparation on.
    abbrev made : State → Result (Unit {0}) × State
    made = prepare env j cfg >> finish_build env j cfg metrics start

    -- `x` stays, if it is not the link, or if the exit code is not 0.
    abbrev Spared : State → Type 0
    Spared t = (t.info.exit_code ≢ pos 0) ⊎ (x ≢ j.latest_build_path)

    after_prepare :
        (r : Result (Unit {0})) (u : State)
        → Spared (bind_result (λ _. finish_build env j cfg metrics start) (r, u)).1
        → (bind_result (λ _. finish_build env j cfg metrics start) (r, u)).1.files.node x
          ≡ u.files.node x
    after_prepare (ok _) u h = finish_build-keeps env j cfg metrics start u x a (inr h)
    after_prepare (err e) u h = refl

    made-node : (s : State) → Spared (made s).1 → (made s).1.files.node x ≡ s.files.node x
    made-node s h =
        after_prepare (prepare env j cfg s).0 (prepare env j cfg s).1 h
        ∙ (Keeps-prepare env j x a.outside cfg ad).at s

    flow-node :
        (flow : Result Flow) (u : State)
        → Spared (bind_result (build_flow env j cfg metrics start) (flow, u)).1
        → (bind_result (build_flow env j cfg metrics start) (flow, u)).1.files.node x
          ≡ u.files.node x
    unfolding build_flow
    flow-node (ok (done r)) u h = refl
    flow-node (ok go_on) u h = made-node u h
    flow-node (err e) u h = refl

    -- What is apart from the build stays as it is: its link too, unless the exit code is 0.
    pub build-node :
        (s : State)
        → (((build env j cfg metrics start s).1.info.exit_code ≢ pos 0) ⊎ (x ≢ j.latest_build_path))
        → (build env j cfg metrics start s).1.files.node x ≡ s.files.node x
    unfolding build
    build-node s h =
        flow-node (check_cache env j cfg metrics s).0 (check_cache env j cfg metrics s).1 h
        ∙ (Keeps-check_cache metrics).at s

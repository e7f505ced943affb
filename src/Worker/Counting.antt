-- ===== src/Worker/Counting.antt =====
-- cmd/mistryd/worker.go: the calls that a build makes to docker, and those to the metrics.
pub mod Preparing
pub mod Whole
pub mod Adapters
use mistry.Base.{ℕ, ◌≤◌, ◌≡◌, Bool, true, false, List, arith, bit, nat_eq, list_eq, String}
use mistry.Base.Text.{Str}
use mistry.Types.{Result, ok, err}
use mistry.Base.Int.{ℤ}
use mistry.Paths.{FilePath}
use mistry.Files.{Node}
use mistry.System.{Env, Call, T, FileSystem, external, ◌>>=◌, ◌>>◌, try}
use mistry.System.Counting.{Adds, adds_rules, Adds-external, Adds-bind_last, Adds-try}
use mistry.Docker.{
  build_image, rename_if_exists, rename_all, deferred, follow_container, start_container,
  put_written, current,
}
use mistry.Job.{Config, Job, read_job_logs}
use mistry.Worker.{record_outcome, publish, link_latest, after_move, latest_found, finish_build}
use mistry.Worker.Bootstrap.{persist_build_info}
use mistry.Worker.Running.{
  write_log, container_ran, run_container, build_and_run, write_param, run_build,
}

-- A function of the metrics.
abbrev pub is_metric : Call → Bool
is_metric (Call.build_started _) = true
is_metric (Call.build_coalesced _) = true
is_metric (Call.cache_used _) = true
is_metric (Call.build_finished _ _ _ _) = true
is_metric _ = false

-- Calls that are counted: those to the metrics alone, and at most `n` for each build of `j`.
pub record IsCounted (f : Call → Bool) (n : ℕ) (j : Job) : Type 0 where
  pub silent : (c : Call) → is_metric c ≡ false → f c ≡ false
  pub finished :
      (success incremental : Bool) (duration : ℤ)
      → bit (f (Call.build_finished j.project success incremental duration)) ≤ n
  pub cached : bit (f (Call.cache_used j.project)) ≤ n
  pub coalesced : bit (f (Call.build_coalesced j.project)) ≤ n

-- The adapter makes no call that is counted.
pub record AdapterAdds (f : Call → Bool) (fs : FileSystem) : Type 0 where
  pub create : (p : FilePath) → Adds f 0 (fs.create p)
  pub clone : (p q : FilePath) → Adds f 0 (fs.clone p q)
  pub remove : (p : FilePath) → Adds f 0 (fs.remove p)

module _ (env : Env) (f : Call → Bool) (n : ℕ) (j : Job) (k : IsCounted f n j) where
  Adds-docker :
      {A : Type 0} (c : Call) (g : ℕ → A) → is_metric c ≡ false → Adds f 0 (external env c g)
  Adds-docker c g h = Adds-external f 0 env c g (k.silent c h)

  Adds-current : {A : Type 0} (g : ℕ → A) → Adds f 0 (current g)
  Adds-current g = record { least = λ s. omega arith; most = λ s. omega arith }

  Adds-write_log : (printed : Str) → Adds f 0 (write_log env j printed)
  unfolding write_log
  Adds-write_log printed = record { least = λ s. omega arith; most = λ s. omega arith }

  Adds-build_image :
      (uid : Str) (pull no_cache : Bool)
      → Adds f 0 (build_image env j uid (write_log env j) pull no_cache)
  unfolding build_image
  Adds-build_image uid pull no_cache = search (adds_rules, Adds-write_log, k.silent) depth 12

  Adds-rename_if_exists : Adds f 0 (rename_if_exists env j)
  unfolding rename_if_exists rename_all
  Adds-rename_if_exists = search (adds_rules, Adds-current, k.silent) depth 10

  Adds-follow_container : (id : Str) → Adds f 0 (follow_container env j (write_log env j) id)
  unfolding follow_container
  Adds-follow_container id = search (adds_rules, Adds-write_log, k.silent) depth 14

  Adds-put_written :
      (base : FilePath) (nodes : List (FilePath × Node)) → Adds f 0 (put_written base nodes)
  unfolding put_written
  Adds-put_written base nodes = record { least = λ s. omega arith; most = λ s. omega arith }

  Adds-start_container : (cfg : Config) → Adds f 0 (start_container env j cfg (write_log env j))
  unfolding start_container
  Adds-start_container cfg =
      search (adds_rules, Adds-rename_if_exists, Adds-put_written, Adds-follow_container, k.silent)
        depth 16

  Adds-container_ran : (r : Result (ℤ × Str)) → Adds f 0 (container_ran env j r)
  unfolding container_ran
  Adds-container_ran (ok r) = search adds_rules depth 8
  Adds-container_ran (err e) = search adds_rules depth 8

  Adds-run_container : (cfg : Config) → Adds f 0 (run_container env j cfg)
  unfolding run_container
  Adds-run_container cfg = search (adds_rules, Adds-start_container, Adds-container_ran) depth 8

  pub Adds-read_job_logs : (p : FilePath) → Adds f 0 (read_job_logs env p)
  unfolding read_job_logs
  Adds-read_job_logs p = search adds_rules depth 8

  -- The end of a build is counted once.
  Adds-build_and_run :
      (cfg : Config) (metrics : Bool) (start : ℕ) → Adds f n (build_and_run env j cfg metrics start)
  unfolding build_and_run
  Adds-build_and_run cfg metrics start =
      search (adds_rules, Adds-build_image, Adds-run_container, Adds-read_job_logs, k.finished)
        depth 18

  Adds-deferred :
      (what : String) (last m : T (Unit {0}))
      → Adds f 0 last
      → Adds f n m
      → Adds f n (deferred what last m)
  unfolding deferred
  Adds-deferred what last m h g = record {
    least = λ s. omega (arith, h.least (m s).1, g.least s);
    most = λ s. omega (arith, h.most (m s).1, g.most s);
  }

  Adds-write_param : (kv : Str × Str) → Adds f 0 (write_param env j kv)
  unfolding write_param
  Adds-write_param (key, v) = search adds_rules depth 8

  Adds-run_build :
      (cfg : Config) (metrics : Bool) (start : ℕ) → Adds f n (run_build env j cfg metrics start)
  unfolding run_build
  Adds-run_build cfg metrics start =
      search (adds_rules, Adds-write_param, Adds-deferred, Adds-build_and_run, k.silent) depth 16

  pub Adds-persist_build_info : Adds f 0 (persist_build_info env j)
  unfolding persist_build_info
  Adds-persist_build_info = search adds_rules depth 8

  Adds-record_outcome : (r : Result (Unit {0})) → Adds f 0 (record_outcome env j r)
  unfolding record_outcome
  Adds-record_outcome r = search (adds_rules, Adds-persist_build_info) depth 8

  Adds-latest_found : (r : Result Node) → Adds f 0 (latest_found env j r)
  unfolding latest_found
  Adds-latest_found (ok m) = search adds_rules depth 8
  Adds-latest_found (err e) = search adds_rules depth 8

  Adds-link_latest : Adds f 0 (link_latest env j)
  unfolding link_latest
  Adds-link_latest = search (adds_rules, Adds-latest_found) depth 10

  Adds-after_move : (r : Result (Unit {0})) → Adds f 0 (after_move env j r)
  unfolding after_move
  Adds-after_move (ok m) = search (adds_rules, Adds-link_latest) depth 10
  Adds-after_move (err e) = search adds_rules depth 8

  Adds-publish : (r : Result (Unit {0})) → Adds f 0 (publish env j r)
  unfolding publish
  Adds-publish r = search (adds_rules, Adds-after_move) depth 10

  pub Adds-finish_build :
      (cfg : Config) (metrics : Bool) (start : ℕ) → Adds f n (finish_build env j cfg metrics start)
  unfolding finish_build
  Adds-finish_build cfg metrics start =
      Adds-bind_last f n (try (run_build env j cfg metrics start))
        (λ outcome. try (record_outcome env j outcome) >>= publish env j)
        (Adds-try f n (run_build env j cfg metrics start) (Adds-run_build cfg metrics start))
        λ outcome. search (adds_rules, Adds-record_outcome, Adds-publish) depth 10

-- ===== src/Metrics/Ends.antt =====
-- cmd/mistryd/metrics/metrics.go: how often a run of `Work` can record that a build ends.
use mistry.Base.{◌≤◌, Bool, true, false, arith, bit, ◌==◌, nat_eq, list_eq}
use mistry.Base.Text.{Str}
use mistry.System.{Call}
use mistry.Job.{Job}
use mistry.Worker.Counting.{IsCounted}
use mistry.Base.Int.{ℤ}
use mistry.Metrics.Tally.{starts, ends, Tally-call}

module _ (p : Str) where
  ends-finished :
      (x : Str) (s i : Bool) (d : ℤ) → bit (ends p (Call.build_finished x s i d)) ≤ bit (x == p)
  ends-finished x true true d = ground arith
  ends-finished x true false d = ground arith
  ends-finished x false i d = ground arith

  starts-finished :
      (x : Str) (s i : Bool) (d : ℤ) → bit (starts p (Call.build_finished x s i d)) ≤ 0
  starts-finished x true true d = ground arith
  starts-finished x true false d = ground arith
  starts-finished x false i d = ground arith

  pub ends-IsCounted : (j : Job) → IsCounted (ends p) (bit (j.project == p)) j
  ends-IsCounted j = record {
    silent = λ c h. ground (arith, (Tally-call p c).quiet h);
    finished = ends-finished j.project;
    cached = ground arith;
    coalesced = ground arith;
  }

  pub starts-IsCounted : (j : Job) → IsCounted (starts p) 0 j
  starts-IsCounted j = record {
    silent = λ c h. ground (arith, (Tally-call p c).quiet h);
    finished = starts-finished j.project;
    cached = ground arith;
    coalesced = ground arith;
  }

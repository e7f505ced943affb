-- ===== src/Metrics/Tally.antt =====
-- What each call of the recorder (cmd/mistryd/metrics/metrics.go) adds to the collectors.
use mistry.Base.{
  ℕ, ◌+◌, ◌≤◌, ◌≡◌, refl, Bool, true, false, ◌&&◌, List, [], ◌∷◌, arith, ltb, count_if,
  count_if-append, bit, ◌==◌, nat_eq, list_eq,
}
use mistry.Base.Text.{Str}
use mistry.System.{Call}
use mistry.Worker.Counting.{is_metric}
use mistry.Metrics.{
  Collector, builds_started, builds_finished, builds_coalesced, builds_processed_incrementally,
  builds_succeeded, builds_failed, cache_utilization, Sample, increases, observes, sets, samples_of,
  samples_of_call,
}

-- A write to one of the collectors for which `w` holds, with the label `project`.
abbrev pub counts : (Collector → Bool) → Str → Sample → Bool
counts w project (increases c x) = w c && (x == project)
counts w project (observes c x d) = w c && (x == project)
counts w project (sets c x n) = false

abbrev pub is_started : Collector → Bool
is_started builds_started = true
is_started _ = false

abbrev pub is_finished : Collector → Bool
is_finished builds_finished = true
is_finished _ = false

abbrev pub is_coalesced : Collector → Bool
is_coalesced builds_coalesced = true
is_coalesced _ = false

abbrev pub is_cached : Collector → Bool
is_cached cache_utilization = true
is_cached _ = false

abbrev pub is_incremental : Collector → Bool
is_incremental builds_processed_incrementally = true
is_incremental _ = false

abbrev pub is_succeeded : Collector → Bool
is_succeeded builds_succeeded = true
is_succeeded _ = false

abbrev pub is_failed : Collector → Bool
is_failed builds_failed = true
is_failed _ = false

-- The value of a counter, and the number of observations of a histogram.
abbrev pub value : (Collector → Bool) → Str → List Sample → ℕ
value w project samples = count_if (counts w project) samples

abbrev pub ended : Str → List Sample → ℕ
ended project samples =
    value is_finished project samples
    + (value is_coalesced project samples + value is_cached project samples)

abbrev pub starts : Str → Call → Bool
starts project c = ltb 0 (value is_started project (samples_of_call c))

abbrev pub ends : Str → Call → Bool
ends project c = ltb 0 (ended project (samples_of_call c))

-- What one call writes.
pub record Tally (project : Str) (c : Call) : Type 0 where
  pub quiet : is_metric c ≡ false → samples_of_call c ≡ []
  begun : value is_started project (samples_of_call c) ≡ bit (starts project c)
  once : ended project (samples_of_call c) ≡ bit (ends project c)
  split :
      value is_finished project (samples_of_call c)
      ≡ value is_succeeded project (samples_of_call c) + value is_failed project (samples_of_call c)
  part :
      value is_incremental project (samples_of_call c)
      ≤ value is_succeeded project (samples_of_call c)

unmetered : (project : Str) (c : Call) → samples_of_call c ≡ [] → Tally project c
unmetered project c h = record {
  quiet = λ _. h;
  begun = ground (arith, h);
  once = ground (arith, h);
  split = ground (arith, h);
  part = ground (arith, h);
}

pub Tally-call : (project : Str) (c : Call) → Tally project c
Tally-call p (Call.build_started x) = record {
  quiet = λ e. cc;
  begun = ground arith;
  once = ground arith;
  split = ground arith;
  part = ground arith;
}
Tally-call p (Call.build_coalesced x) = record {
  quiet = λ e. cc;
  begun = ground arith;
  once = ground arith;
  split = ground arith;
  part = ground arith;
}
Tally-call p (Call.cache_used x) = record {
  quiet = λ e. cc;
  begun = ground arith;
  once = ground arith;
  split = ground arith;
  part = ground arith;
}
Tally-call p (Call.build_finished x true true d) = record {
  quiet = λ e. cc;
  begun = ground arith;
  once = ground arith;
  split = ground arith;
  part = ground arith;
}
Tally-call p (Call.build_finished x true false d) = record {
  quiet = λ e. cc;
  begun = ground arith;
  once = ground arith;
  split = ground arith;
  part = ground arith;
}
Tally-call p (Call.build_finished x false i d) = record {
  quiet = λ e. cc;
  begun = ground arith;
  once = ground arith;
  split = ground arith;
  part = ground arith;
}
Tally-call p Call.docker_open = unmetered p _ refl
Tally-call p Call.docker_close = unmetered p _ refl
Tally-call p (Call.image_build a b c d) = unmetered p _ refl
Tally-call p (Call.image_output a) = unmetered p _ refl
Tally-call p (Call.image_inspect a) = unmetered p _ refl
Tally-call p (Call.container_list a) = unmetered p _ refl
Tally-call p (Call.container_rename a b) = unmetered p _ refl
Tally-call p (Call.container_create a b c d) = unmetered p _ refl
Tally-call p (Call.container_start a) = unmetered p _ refl
Tally-call p (Call.container_logs a) = unmetered p _ refl
Tally-call p (Call.container_copy a) = unmetered p _ refl
Tally-call p (Call.container_inspect a) = unmetered p _ refl
Tally-call p (Call.container_remove a) = unmetered p _ refl
Tally-call p Call.containers_prune = unmetered p _ refl
Tally-call p Call.images_prune = unmetered p _ refl
Tally-call p (Call.command a) = unmetered p _ refl

module _ (p : Str) where
  value-calls :
      (w : Collector → Bool) (c : Call) (calls : List Call)
      → value w p (samples_of (c ∷ calls))
        ≡ value w p (samples_of_call c) + value w p (samples_of calls)
  unfolding samples_of
  value-calls w c calls = count_if-append (counts w p) (samples_of_call c) (samples_of calls)

  pub started-calls :
      (calls : List Call) → value is_started p (samples_of calls) ≡ count_if (starts p) calls
  unfolding samples_of
  started-calls [] = refl
  started-calls (c ∷ calls) =
      ground (arith, value-calls is_started c calls, started-calls calls, (Tally-call p c).begun)

  pub ended-calls : (calls : List Call) → ended p (samples_of calls) ≡ count_if (ends p) calls
  unfolding samples_of
  ended-calls [] = refl
  ended-calls (c ∷ calls) = ground (
    arith,
    value-calls is_finished c calls,
    value-calls is_coalesced c calls,
    value-calls is_cached c calls,
    ended-calls calls,
    (Tally-call p c).once,
  )

  pub split-calls :
      (calls : List Call)
      → value is_finished p (samples_of calls)
        ≡ value is_succeeded p (samples_of calls) + value is_failed p (samples_of calls)
  unfolding samples_of
  split-calls [] = refl
  split-calls (c ∷ calls) = omega (
    arith,
    value-calls is_finished c calls,
    value-calls is_succeeded c calls,
    value-calls is_failed c calls,
    split-calls calls,
    (Tally-call p c).split,
  )

  pub part-calls :
      (calls : List Call)
      → value is_incremental p (samples_of calls) ≤ value is_succeeded p (samples_of calls)
  unfolding samples_of
  part-calls [] = omega arith
  part-calls (c ∷ calls) = omega (
    arith,
    value-calls is_incremental c calls,
    value-calls is_succeeded c calls,
    part-calls calls,
    (Tally-call p c).part,
  )

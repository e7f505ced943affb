-- ===== src/Metrics.antt =====
-- cmd/mistryd/metrics/metrics.go: what the server exports of its builds.
pub mod Tally
pub mod Ends
pub mod Balance
use mistry.Base.{
  ℕ, zero, suc, ◌+◌, Bool, true, false, List, [], ◌∷◌, ◌++◌, length, nat_eq, list_eq, String,
}
use mistry.Base.Text.{Str, codes}
use mistry.Types.{Result, ok, err}
use mistry.Base.Int.{ℤ}
use mistry.Paths.{FilePath}
use mistry.System.{Env, T, Call, try, pure, syscall, ◌>>=◌}
use mistry.Index.{Entry, read_dir}

pub data Collector : Type 0 where
  builds_hosted builds_started builds_finished builds_coalesced builds_processed_incrementally
        builds_succeeded builds_failed cache_utilization :
      Collector

-- `promauto.New...Vec`; a histogram has the upper ends of its buckets, in seconds.
pub data Kind : Type 0 where
  gauge counter : Kind
  histogram : (buckets : List ℕ) → Kind

abbrev namespace : Str
namespace = codes "mistry"

-- `prometheus.LinearBuckets(start, width, count)`
linear_buckets : ℕ → ℕ → ℕ → List ℕ
linear_buckets start width zero = []
linear_buckets start width (suc n) = start ∷ linear_buckets (start + width) width n

-- What `NewRecorder` registers: each collector with its kind and its full name. All have the label
-- `project`.
unfoldable pub new_recorder : List (Collector × (Kind × Str))
unfolding linear_buckets
new_recorder =
    let build_time_buckets = linear_buckets 120 120 3 in
    let named = λ (s : String). namespace ++ (codes "_" ++ codes s) in
    (builds_hosted, (gauge, named "builds_hosted"))
    ∷ (builds_started, (counter, named "builds_started"))
    ∷ (builds_finished, (counter, named "builds_finished"))
    ∷ (builds_coalesced, (counter, named "builds_coalesced"))
    ∷ (builds_processed_incrementally, (counter, named "builds_processed_incrementally"))
    ∷ (builds_succeeded, (histogram build_time_buckets, named "builds_succeeded_seconds"))
    ∷ (builds_failed, (histogram build_time_buckets, named "builds_failed_seconds"))
    ∷ (cache_utilization, (counter, named "cache_utilization"))
    ∷ []

-- A write to a collector, with the project as its label.
pub data Sample : Type 0 where
  increases : Collector → Str → Sample
  observes : Collector → Str → ℤ → Sample
  sets : Collector → Str → ℕ → Sample

-- `RecordBuildStarted`, `RecordBuildCoalesced`, `RecordBuildFinished` and `RecordCacheUtilization`.
abbrev pub record_build_started : Str → List Sample
record_build_started project = increases builds_started project ∷ []

abbrev pub record_build_coalesced : Str → List Sample
record_build_coalesced project = increases builds_coalesced project ∷ []

abbrev pub record_incremental : Bool → Str → List Sample
record_incremental true project = increases builds_processed_incrementally project ∷ []
record_incremental false project = []

abbrev pub record_build_finished : Str → Bool → Bool → ℤ → List Sample
record_build_finished project true incremental duration =
    increases builds_finished project
    ∷ (record_incremental incremental project ++ (observes builds_succeeded project duration ∷ []))
record_build_finished project false incremental duration =
    increases builds_finished project ∷ observes builds_failed project duration ∷ []

abbrev pub record_cache_utilization : Str → List Sample
record_cache_utilization project = increases cache_utilization project ∷ []

-- The calls of the recorder among the calls of a run.
abbrev pub samples_of_call : Call → List Sample
samples_of_call (Call.build_started project) = record_build_started project
samples_of_call (Call.build_coalesced project) = record_build_coalesced project
samples_of_call (Call.cache_used project) = record_cache_utilization project
samples_of_call (Call.build_finished project success incremental duration) =
    record_build_finished project success incremental duration
samples_of_call _ = []

unfoldable pub samples_of : List Call → List Sample
samples_of [] = []
samples_of (c ∷ calls) = samples_of_call c ++ samples_of calls

module _ (env : Env) where
  -- The number of entries of a ready directory that can be read.
  hosted : Str → Result (List Entry) → List Sample
  hosted project (ok builds) = sets builds_hosted project (length builds) ∷ []
  hosted project (err e) = []

  hosted_of : FilePath → List Entry → T (List Sample)
  unfolding hosted
  hosted_of build_path [] = pure []
  hosted_of build_path (project ∷ projects) = do
    builds ← try (syscall env (read_dir (build_path ++ (project.name ∷ codes "ready" ∷ []))))
    rest ← hosted_of build_path projects
    pure (hosted project.name builds ++ rest)

  found_projects : FilePath → Result (List Entry) → T (List Sample)
  unfolding hosted_of
  found_projects build_path (ok projects) = hosted_of build_path projects
  found_projects build_path (err e) = pure []

  -- `RecordHostedBuilds`
  unfoldable pub record_hosted_builds : FilePath → FilePath → T (List Sample)
  unfolding found_projects
  record_hosted_builds build_path projects_path = do
    projects ← try (syscall env (read_dir projects_path))
    found_projects build_path projects

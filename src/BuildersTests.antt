-- ===== src/BuildersTests.antt =====
-- Two workers of cmd/mistryd/worker.go that build two jobs of one project.
use mistry.Base.{◌≡◌, refl, true, false, [], ◌∷◌, nat_eq, list_eq}
use mistry.Base.Dict.{lookup}
use mistry.Base.Text.{codes}
use mistry.Job.{Job, job_of}
use mistry.JobQueue.{add}
use mistry.Builders.{idle, building, Builders}
use mistry.WorkerTests.{job}

-- Another job, with an id of its own.
abbrev other_job : Job
other_job = record job { id = codes "other" }

abbrev one_builds : Builders
one_builds = record {
  jq = record { jobs = (job.id, true) ∷ [] };
  workers = building job ∷ idle ∷ [];
}

abbrev two_build : Builders
two_build = record {
  jq = record { jobs = (job.id, true) ∷ (codes "other", true) ∷ [] };
  workers = building job ∷ building other_job ∷ [];
}

-- A third request for the first job coalesces.
add_again : (add two_build.jq job).1 ≡ false
unfolding add lookup job_of
add_again = refl

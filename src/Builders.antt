-- ===== src/Builders.antt =====
-- The workers of a server (cmd/mistryd/worker.go) as they share the queue of the jobs that are built.
pub mod Exclusion
use mistry.Base.{ℕ, zero, suc, ◌+◌, ◌≡◌, Bool, true, false, List, [], ◌∷◌, ◌++◌, nat_eq, list_eq}
use mistry.Job.{Job}
use mistry.JobQueue.{JobQueue, new_job_queue, add, delete}

-- Where a worker is: outside of `Work`; in `Work` before `s.jq.Add(j)`; behind it where the job was
-- added, up to the deferred `s.jq.Delete(j)`; or in the loop of a job that was not.
pub data Phase : Type 0 where
  idle : Phase
  called : Job → Phase
  building : Job → Phase
  coalescing : Job → Phase

pub record Builders : Type 0 where
  pub jq : JobQueue
  pub workers : List Phase

-- `added := s.jq.Add(j)`; the queue's mutex makes it one step.
abbrev pub after_add : Job → Bool → Phase
after_add j true = building j
after_add j false = coalescing j

abbrev pub idle_workers : ℕ → List Phase
idle_workers zero = []
idle_workers (suc n) = idle ∷ idle_workers n

abbrev pub start_builders : ℕ → Builders
start_builders n = record { jq = new_job_queue; workers = idle_workers n }

-- A worker calls `Work`, adds its job, ends the build of a job that it added, or ends without one.
pub data Step : Builders → Builders → Type 0 where
  calls :
      (b : Builders) (before after : List Phase) (j : Job)
      → b.workers ≡ before ++ (idle ∷ after)
      → Step b (record b { workers = before ++ (called j ∷ after) })
  adds :
      (b : Builders) (before after : List Phase) (j : Job)
      → b.workers ≡ before ++ (called j ∷ after)
      → Step b
          (record { jq = (add b.jq j).0; workers = before ++ (after_add j (add b.jq j).1 ∷ after) })
  deletes :
      (b : Builders) (before after : List Phase) (j : Job)
      → b.workers ≡ before ++ (building j ∷ after)
      → Step b (record { jq = delete b.jq j; workers = before ++ (idle ∷ after) })
  coalesced :
      (b : Builders) (before after : List Phase) (j : Job)
      → b.workers ≡ before ++ (coalescing j ∷ after)
      → Step b (record b { workers = before ++ (idle ∷ after) })

pub data Reach (b : Builders) : Builders → Type 0 where
  here : Reach b b
  next : {c d : Builders} → Reach b c → Step c d → Reach b d

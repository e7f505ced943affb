-- ===== src/JobQueue.antt =====
-- cmd/mistryd/job_queue.go: the jobs that are being built, by id.
use mistry.Base.{
  not, ◌≡◌, Bool, true, false, none, some, [], arith, ◌==◌, nat_eq, list_eq, if◌then◌else◌,
  list_beq_iff,
}
use mistry.Base.Dict.{Dict, lookup, insert, erase, lookup-insert, lookup-erase}
use mistry.Base.Text.{Str}
use mistry.Job.{Job}

pub record JobQueue : Type 0 where
  pub jobs : Dict Str Bool

abbrev pub new_job_queue : JobQueue
new_job_queue = record { jobs = [] }

-- `q.jobs[id]`: false for a missing key.
abbrev pub is_queued : JobQueue → Str → Bool
is_queued q id = elim (lookup id q.jobs) [ none ↦ false | some b ↦ b ]

unfoldable pub add : JobQueue → Job → JobQueue × Bool
add q j = if is_queued q j.id then (q, false) else (record { jobs = insert j.id true q.jobs }, true)

unfoldable pub delete : JobQueue → Job → JobQueue
delete q j = record { jobs = erase j.id q.jobs }

-- `Add` reports whether the job is new, and leaves it queued in both cases; other jobs are not
-- touched.
pub add_lem :
    (q : JobQueue) (j : Job) (k : Str)
    → ((add q j).1 ≡ not (is_queued q j.id))
      × (is_queued (add q j).0 k ≡ (if k == j.id then true else is_queued q k))
unfolding add
add_lem q j k = ground (arith, lookup-insert k j.id true q.jobs, list_beq_iff k j.id)

-- `Delete` takes the job out and touches no other.
pub delete_lem :
    (q : JobQueue) (j : Job) (k : Str)
    → is_queued (delete q j) k ≡ (if k == j.id then false else is_queued q k)
unfolding delete
delete_lem q j k = ground (arith, lookup-erase k j.id q.jobs)

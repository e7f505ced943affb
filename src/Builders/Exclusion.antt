-- ===== src/Builders/Exclusion.antt =====
-- No job is built by two workers at once (cmd/mistryd/worker.go and job_queue.go).
use mistry.Base.{
  ℕ, zero, suc, ◌≡◌, refl, Bool, true, false, ◌&&◌, List, ◌∷◌, ◌++◌, arith, count_if, bit,
  bit-at-most, count_if-replace, ◌==◌, nat_eq, list_eq, list_beq_iff,
}
use mistry.Base.Dict.{lookup}
use mistry.Base.Text.{Str}
use mathlib.Core.Path.{ap}
use mistry.Job.{Job}
use mistry.JobQueue.{add, delete, is_queued, add_lem, delete_lem}
use mistry.Builders.{
  Phase, idle, called, building, coalescing, Builders, after_add, start_builders, Step, calls, adds,
  deletes, coalesced, Reach, here, next,
}

abbrev pub builds : Str → Phase → Bool
builds id idle = false
builds id (called j) = false
builds id (building j) = id == j.id
builds id (coalescing j) = false

-- A job is in the queue exactly if a worker builds it, and then one does.
pub IsShared : Builders → Type 0
IsShared b = (id : Str) → count_if (builds id) b.workers ≡ bit (is_queued b.jq id)

start-IsShared : (n : ℕ) → IsShared (start_builders n)
unfolding IsShared lookup
start-IsShared zero id = refl
start-IsShared (suc n) id = start-IsShared n id

builds-after_add : (id : Str) (j : Job) (b : Bool) → builds id (after_add j b) ≡ (b && (id == j.id))
builds-after_add id j true = refl
builds-after_add id j false = refl

adds-IsShared :
    (b : Builders) (before after : List Phase) (j : Job)
    → b.workers ≡ before ++ (called j ∷ after)
    → IsShared b
    → IsShared
        (record { jq = (add b.jq j).0; workers = before ++ (after_add j (add b.jq j).1 ∷ after) })
unfolding IsShared
adds-IsShared b before after j e h id = ground (
  arith,
  h id,
  add_lem b.jq j id,
  list_beq_iff id j.id,
  builds-after_add id j (add b.jq j).1,
  count_if-replace (builds id) b.workers before after (called j) (after_add j (add b.jq j).1) e,
)

deletes-IsShared :
    (b : Builders) (before after : List Phase) (j : Job)
    → b.workers ≡ before ++ (building j ∷ after)
    → IsShared b
    → IsShared (record { jq = delete b.jq j; workers = before ++ (idle ∷ after) })
unfolding IsShared
deletes-IsShared b before after j e h id = ground (
  arith,
  h id,
  h j.id,
  delete_lem b.jq j id,
  list_beq_iff id j.id,
  count_if-replace (builds id) b.workers before after (building j) idle e,
  bit-at-most (is_queued b.jq id),
)

-- A worker that does not build, before and after its step, leaves the counts.
unbuilt-IsShared :
    (b : Builders) (before after : List Phase) (v w : Phase)
    → b.workers ≡ before ++ (v ∷ after)
    → ((id : Str) → builds id v ≡ builds id w)
    → IsShared b
    → IsShared (record b { workers = before ++ (w ∷ after) })
unfolding IsShared
unbuilt-IsShared b before after v w e same h id =
    omega (arith, h id, ap bit (same id), count_if-replace (builds id) b.workers before after v w e)

Step-IsShared : (b c : Builders) → IsShared b → Step b c → IsShared c
Step-IsShared _ _ h (calls b before after j e) =
    unbuilt-IsShared b before after idle (called j) e (λ id. refl) h
Step-IsShared _ _ h (coalesced b before after j e) =
    unbuilt-IsShared b before after (coalescing j) idle e (λ id. refl) h
Step-IsShared _ _ h (adds b before after j e) = adds-IsShared b before after j e h
Step-IsShared _ _ h (deletes b before after j e) = deletes-IsShared b before after j e h

pub Reach-IsShared : (n : ℕ) (b : Builders) → Reach (start_builders n) b → IsShared b
Reach-IsShared n b here = start-IsShared n
Reach-IsShared n b (next {c} r k) = Step-IsShared c b (Reach-IsShared n c r) k

module _ (n : ℕ) (b : Builders) (reach : Reach (start_builders n) b) where
  -- A job that is not added is being built by a worker.
  pub add-busy : (j : Job) → (add b.jq j).1 ≡ false → count_if (builds j.id) b.workers ≡ 1
  unfolding IsShared
  add-busy j h = ground (arith, Reach-IsShared n b reach j.id, add_lem b.jq j j.id, h)

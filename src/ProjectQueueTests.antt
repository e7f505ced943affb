-- ===== src/ProjectQueueTests.antt =====
-- Runs of two goroutines that lock one project (cmd/mistryd/project_queue.go).
use mistry.Base.{◌<◌, ◌≡◌, ◌≢◌, refl, ◌⊎◌, true, false, [], ◌∷◌, arith, count_if, nat_eq, list_eq}
use mistry.Base.Dict.{lookup, insert}
use mistry.Base.Text.{Str, codes}
use mistry.ProjectQueue.{
  ProjectQueue, new_project_queue, outside, locking, looking, waiting, inside, panics, set_locked,
  find_mutex, turn, System, start_system, Step, calls_lock, runs, Reach, here, next,
}
use mistry.ProjectQueue.Invariant.{holds}
use mistry.ProjectQueue.Exclusion.{mutual_exclusion, never_stuck, CanRun, is_inside}
use mistry.ProjectQueue.Refinement.{Simulates, project_lock_refines}

abbrev app : Str
app = codes "app"

-- The first goroutine is about to lock the mutex that it has made.
abbrev made_queue : ProjectQueue
made_queue = record (set_locked 0 false new_project_queue) { p = (app, 0) ∷ []; made = 1 }

abbrev made_one : System
made_one = record { queue = made_queue; threads = waiting app 0 ∷ outside ∷ [] }

abbrev locked_queue : ProjectQueue
locked_queue = set_locked 0 true made_queue

abbrev locked_one : System
locked_one = record { queue = locked_queue; threads = inside app ∷ outside ∷ [] }

-- The second one waits for it.
abbrev both : System
both = record {
  queue = record locked_queue { mu = false };
  threads = inside app ∷ waiting app 0 ∷ [];
}

reach_made : Reach (start_system 2) made_one
unfolding turn find_mutex lookup insert
reach_made =
    next
      (next (next here (calls_lock (start_system 2) [] (outside ∷ []) app refl)) (
        runs _ [] (outside ∷ []) (locking app) (looking app)
          (record new_project_queue { mu = true }) refl refl))
      (runs _ [] (outside ∷ []) (looking app) (waiting app 0) made_queue refl refl)

locks : Step made_one locked_one
unfolding turn
locks = runs made_one [] (outside ∷ []) (waiting app 0) (inside app) locked_queue refl refl

reach_both : Reach (start_system 2) both
unfolding turn find_mutex lookup
reach_both =
    next
      (next (next (next reach_made locks) (calls_lock locked_one (inside app ∷ []) [] app refl)) (
        runs _ (inside app ∷ []) [] (locking app) (looking app) (record locked_queue { mu = true })
          refl refl))
      (runs _ (inside app ∷ []) [] (looking app) (waiting app 0)
        (record locked_queue { mu = false }) refl refl)

project_lock_refines_example : Simulates made_one.threads locked_one.threads
project_lock_refines_example = project_lock_refines 2 made_one locked_one reach_made locks

mutual_exclusion_example :
    (count_if (holds app) (waiting app 0 ∷ []) ≡ 0) × (turn (inside app) both.queue ≢ panics)
mutual_exclusion_example =
    mutual_exclusion 2 both reach_both [] (waiting app 0 ∷ []) (inside app) app refl refl

never_stuck_example : CanRun both ⊎ (0 < count_if is_inside both.threads)
never_stuck_example = never_stuck 2 both reach_both (omega arith)

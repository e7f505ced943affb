-- ===== src/PoolTests.antt =====
-- Runs of the pool of cmd/mistryd/worker_pool.go with one worker, whose jobs are numbers.
use mistry.Base.{ℕ, ◌≡◌, ◌≤◌, refl, some, [], ◌∷◌, arith, suc, true, length, ◌⊎◌, count_if, ◌+◌}
use mistry.Types.{ok}
use mistry.WorkerPool.{
  WorkItem, receiving, parked, busy, exited, WorkerPool, new_worker_pool, hand_over, receive,
  write_result, send_work, wait, Step, send, take, finish, close, Reach, here, next,
}
use mistry.WorkerPool.Invariant.{holders, is_parked}
use mistry.Base.Dict.{lookup}
use mistry.WorkerPool.Promises.{
  sent-kept, write_result-never_panics, wait-result, Reach-bounds, Reach-stops, stop-answers, left,
  steps_of,
}

-- The worker adds one to its job.
abbrev Adds : ℕ → ℕ → Type 0
Adds j r = r ≡ suc j

abbrev fresh_pool : WorkerPool ℕ ℕ
fresh_pool = new_worker_pool 1 1

abbrev waiting_pool : WorkerPool ℕ ℕ
waiting_pool = record fresh_pool { workers = parked ∷ [] }

abbrev first_item : WorkItem ℕ
first_item = record { job = 7; result = 0 }

abbrev second_item : WorkItem ℕ
second_item = record { job = 9; result = 1 }

abbrev sent_pool : WorkerPool ℕ ℕ
sent_pool = record fresh_pool { workers = busy first_item ∷ []; channels = 1 }

abbrev full_pool : WorkerPool ℕ ℕ
full_pool = record sent_pool { queue = second_item ∷ []; channels = 2 }

abbrev closed_pool : WorkerPool ℕ ℕ
closed_pool = record sent_pool { closed = true }

abbrev answered_pool : WorkerPool ℕ ℕ
answered_pool = record closed_pool { workers = receiving ∷ []; results = (0, 8) ∷ [] }

abbrev stopped_pool : WorkerPool ℕ ℕ
stopped_pool = record answered_pool { workers = exited ∷ [] }

wrote : write_result {R = ℕ} 0 8 [] ≡ some ((0, 8) ∷ [])
unfolding write_result lookup
wrote = refl

parks : Step Adds fresh_pool waiting_pool
unfolding receive
parks = take fresh_pool [] [] receiving parked [] refl refl

sends : send_work 7 waiting_pool ≡ some (sent_pool, ok 0)
unfolding send_work hand_over
sends = refl

sends_more : send_work 9 sent_pool ≡ some (full_pool, ok 1)
unfolding send_work hand_over
sends_more = refl

to_waiting : Reach Adds fresh_pool waiting_pool
to_waiting = next here parks

to_full : Reach Adds fresh_pool full_pool
to_full =
    next (next to_waiting (send waiting_pool sent_pool 7 (ok 0) sends))
      (send sent_pool full_pool 9 (ok 1) sends_more)

abbrev to_stopped : Reach Adds closed_pool stopped_pool
unfolding receive
to_stopped =
    next (next here (finish closed_pool [] [] first_item 8 ((0, 8) ∷ []) refl refl wrote))
      (take answered_pool [] [] receiving exited [] refl refl)

sent_to_stopped : Reach Adds sent_pool stopped_pool
unfolding receive
sent_to_stopped =
    next
      (next (next here (close sent_pool refl))
        (finish closed_pool [] [] first_item 8 ((0, 8) ∷ []) refl refl wrote))
      (take answered_pool [] [] receiving exited [] refl refl)

sent-kept_example : holders 0 stopped_pool ≡ 1
sent-kept_example =
    sent-kept Adds 1 1 waiting_pool sent_pool stopped_pool 7 0 to_waiting sends sent_to_stopped

wait-result_example : Adds 7 8
unfolding wait lookup
wait-result_example =
    wait-result Adds 1 1 waiting_pool sent_pool stopped_pool 7 0 8 to_waiting sends sent_to_stopped
      refl

Reach-bounds_example :
    (length full_pool.queue ≤ full_pool.backlog_size)
    × (holders 1 full_pool ≤ 1)
    × ((count_if is_parked full_pool.workers ≡ 0) ⊎ (length full_pool.queue ≡ 0))
Reach-bounds_example = Reach-bounds Adds 1 1 full_pool 1 to_full

write_result-never_panics_example : write_result {R = ℕ} 0 8 [] ≡ some ((0, 8) ∷ [])
write_result-never_panics_example =
    write_result-never_panics Adds 1 1 full_pool [] [] first_item 8 to_full refl

Reach-stops_example :
    (stopped_pool.closed ≡ true)
    × (steps_of Adds to_stopped + left Adds stopped_pool ≤ left Adds closed_pool)
Reach-stops_example = Reach-stops Adds to_stopped refl

stop-answers_example : (result : ℕ) × ((wait 0 stopped_pool ≡ some result) × Adds 7 result)
stop-answers_example =
    stop-answers Adds 1 1 waiting_pool sent_pool stopped_pool 7 0 to_waiting sends sent_to_stopped
      refl (omega arith)

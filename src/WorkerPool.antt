-- ===== src/WorkerPool.antt =====
-- cmd/mistryd/worker_pool.go: a fixed number of workers that take jobs from a bounded queue. The
-- type of jobs, the type of results and what `Work` can return for a job are parameters.
pub mod Invariant
pub mod Keeping
pub mod Runs
pub mod Answers
pub mod Promises
use mistry.Base.{
  ℕ, zero, suc, ◌≡◌, Bool, true, false, Option, none, some, List, [], ◌∷◌, ◌++◌, ltb, length,
  nat_eq, list_eq, if◌then◌else◌,
}
use mistry.Base.Dict.{Dict, lookup}
use mistry.Base.Text.{codes}
use mistry.Types.{Result, ok, err, message}

-- A job with the channel for its result, named by the number of channels made before it.
pub record WorkItem (J : Type 0) : Type 0 where
  pub job : J
  pub result : ℕ

-- Where a worker is in its loop: about to receive, parked at the empty queue, in `Work`, or
-- returned because the queue was closed.
pub data WorkerState (J : Type 0) : Type 0 where
  receiving : WorkerState J
  parked : WorkerState J
  busy : WorkItem J → WorkerState J
  exited : WorkerState J

-- `results` holds the channels that have been written to and closed.
pub record WorkerPool (J R : Type 0) : Type 0 where
  pub concurrency : ℕ
  pub backlog_size : ℕ
  pub queue : List (WorkItem J)
  pub closed : Bool
  pub workers : List (WorkerState J)
  pub results : Dict ℕ R
  pub channels : ℕ

abbrev pub start_workers : {J : Type 0} → ℕ → List (WorkerState J)
start_workers zero = []
start_workers (suc n) = receiving ∷ start_workers n

abbrev pub new_worker_pool : {J R : Type 0} → ℕ → ℕ → WorkerPool J R
new_worker_pool concurrency backlog = record {
  concurrency = concurrency;
  backlog_size = backlog;
  queue = [];
  closed = false;
  workers = start_workers concurrency;
  results = [];
  channels = 0;
}

module _ {J : Type 0} where
  abbrev behind : WorkerState J → Option (List (WorkerState J)) → Option (List (WorkerState J))
  behind w none = none
  behind w (some ws) = some (w ∷ ws)

  -- A send to a channel at which a receiver is parked: it gets the item.
  unfoldable pub hand_over : WorkItem J → List (WorkerState J) → Option (List (WorkerState J))
  hand_over item [] = none
  hand_over item (parked ∷ ws) = some (busy item ∷ ws)
  hand_over item (receiving ∷ ws) = behind receiving (hand_over item ws)
  hand_over item (busy i ∷ ws) = behind (busy i) (hand_over item ws)
  hand_over item (exited ∷ ws) = behind exited (hand_over item ws)

  -- A receive at the head of the loop of `work`, `none` while it blocks.
  unfoldable pub receive :
      Bool → List (WorkItem J) → WorkerState J → Option (List (WorkItem J) × WorkerState J)
  receive closed (item ∷ queue) receiving = some (queue, busy item)
  receive false [] receiving = some ([], parked)
  receive true [] receiving = some ([], exited)
  receive true queue parked = some (queue, exited)
  receive false queue parked = none
  receive closed queue (busy i) = none
  receive closed queue exited = none

module _ {R : Type 0} where
  -- The write to the result channel, which holds one result; `none` is the panic of the default.
  unfoldable pub write_result : ℕ → R → Dict ℕ R → Option (Dict ℕ R)
  write_result channel r results = elim (lookup channel results) [
    | none ↦ some ((channel, r) ∷ results)
    | some _ ↦ none
  ]

module _ {J R : Type 0} where
  -- The `select` of `SendWork`, with its new result channel: to a parked receiver, else to the
  -- queue while there is room, else the default.
  enqueue : WorkItem J → WorkerPool J R → Option (List (WorkerState J)) → WorkerPool J R × Result ℕ
  enqueue item p (some workers) = (record p { workers = workers }, ok item.result)
  enqueue item p none =
      if ltb (length p.queue) p.backlog_size
      then (record p { queue = p.queue ++ (item ∷ []) }, ok item.result)
      else (p, err (message (codes "queue is full")))

  -- A send on a closed channel panics.
  send_on : Bool → WorkItem J → WorkerPool J R → Option (WorkerPool J R × Result ℕ)
  unfolding enqueue
  send_on true item p = none
  send_on false item p =
      some (enqueue item (record p { channels = suc p.channels }) (hand_over item p.workers))

  -- `SendWork`; `none` is its panic.
  unfoldable pub send_work : J → WorkerPool J R → Option (WorkerPool J R × Result ℕ)
  unfolding send_on
  send_work j p = send_on p.closed (record { job = j; result = p.channels }) p

  -- `FutureWorkResult.Wait`, `none` while it blocks.
  unfoldable pub wait : ℕ → WorkerPool J R → Option R
  wait channel p = lookup channel p.results

-- One step of the pool, of a sender, a worker, or `Stop`.
pub data Step {J R : Type 0} (Works : J → R → Type 0)
    : WorkerPool J R → WorkerPool J R → Type 0 where
  send :
      (p q : WorkerPool J R) (j : J) (answer : Result ℕ)
      → send_work j p ≡ some (q, answer)
      → Step Works p q
  take :
      (p : WorkerPool J R) (before after : List (WorkerState J)) (v w : WorkerState J)
      (queue : List (WorkItem J))
      → p.workers ≡ before ++ (v ∷ after)
      → receive p.closed p.queue v ≡ some (queue, w)
      → Step Works p (record p { queue = queue; workers = before ++ (w ∷ after) })
  finish :
      (p : WorkerPool J R) (before after : List (WorkerState J)) (item : WorkItem J) (r : R)
      (results : Dict ℕ R)
      → p.workers ≡ before ++ (busy item ∷ after)
      → Works item.job r
      → write_result item.result r p.results ≡ some results
      → Step Works p (record p { results = results; workers = before ++ (receiving ∷ after) })
  close : (p : WorkerPool J R) → p.closed ≡ false → Step Works p (record p { closed = true })

pub data Reach {J R : Type 0} (Works : J → R → Type 0) (p : WorkerPool J R)
    : WorkerPool J R → Type 0 where
  here : Reach Works p p
  next : {q r : WorkerPool J R} → Reach Works p q → Step Works q r → Reach Works p r

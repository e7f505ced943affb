-- ===== src/WorkerPool/Keeping.antt =====
-- The steps of a pool (cmd/mistryd/worker_pool.go) keep its invariant, and lose no accepted job.
use mistry.Base.{
  bit, count_if-replace, ℕ, ◌+◌, ◌≤◌, ◌≡◌, ◌⊎◌, Bool, true, false, some, List, [], ◌∷◌, ◌++◌, arith,
  length, count_if, ◌==◌, nat_eq, list_eq,
}
use mistry.Base.Dict.{Dict, lookup-none}
use mistry.WorkerPool.{
  WorkItem, WorkerState, receiving, parked, busy, exited, WorkerPool, receive, write_result,
}
use mistry.WorkerPool.Invariant.{is_parked, is_exited, is_for, works_for, holders, IsSound}

module _ {J : Type 0} where
  -- A receive moves its item from the queue to the worker.
  receive-count :
      (closed : Bool) (queue queue' : List (WorkItem J)) (v w : WorkerState J) (c : ℕ)
      → receive closed queue v ≡ some (queue', w)
      → count_if (is_for c) queue' + bit (works_for c w)
        ≡ count_if (is_for c) queue + bit (works_for c v)
  unfolding receive
  receive-count closed (item ∷ queue) queue' receiving w c h = ground arith
  receive-count false [] queue' receiving w c h = ground arith
  receive-count true [] queue' receiving w c h = ground arith
  receive-count true queue queue' parked w c h = ground arith
  receive-count false queue queue' parked w c h = cc
  receive-count closed queue queue' (busy i) w c h = ground arith
  receive-count closed queue queue' exited w c h = ground arith

  -- A worker parks, or exits, at an empty queue, and exits at a closed one.
  receive-rest :
      (closed : Bool) (queue queue' : List (WorkItem J)) (v w : WorkerState J)
      → receive closed queue v ≡ some (queue', w)
      → (length queue' ≤ length queue)
        × ((is_parked w ≡ false) ⊎ (length queue' ≡ 0))
        × ((is_exited w ≡ false) ⊎ (((length queue ≡ 0) ⊎ (v ≡ parked)) × (closed ≡ true)))
        × (is_exited v ≡ false)
  unfolding receive
  receive-rest closed (item ∷ queue) queue' receiving w h = ground arith
  receive-rest false [] queue' receiving w h = ground arith
  receive-rest true [] queue' receiving w h = ground arith
  receive-rest true queue queue' parked w h = ground arith
  receive-rest false queue queue' parked w h = cc
  receive-rest closed queue queue' (busy i) w h = ground arith
  receive-rest closed queue queue' exited w h = ground arith

module _ {R : Type 0} where
  -- A channel that no result stands for can be written to.
  pub write_result-free :
      (c : ℕ) (r : R) (results : Dict ℕ R)
      → count_if (λ e. e.0 == c) results ≡ 0
      → write_result c r results ≡ some ((c, r) ∷ results)
  unfolding write_result
  write_result-free c r results h = ground (arith, lookup-none c results h)

module _ {J R : Type 0} where
  -- A receive leaves each channel as many places as it has.
  pub take-holders :
      (p : WorkerPool J R) (before after : List (WorkerState J)) (v w : WorkerState J)
      (queue : List (WorkItem J)) (c : ℕ)
      → p.workers ≡ before ++ (v ∷ after)
      → receive p.closed p.queue v ≡ some (queue, w)
      → holders c (record p { queue = queue; workers = before ++ (w ∷ after) }) ≡ holders c p
  take-holders p before after v w queue c e h = omega (
    arith,
    receive-count p.closed p.queue queue v w c h,
    count_if-replace (works_for c) p.workers before after v w e,
  )

  pub take-IsSound :
      (p : WorkerPool J R) (before after : List (WorkerState J)) (v w : WorkerState J)
      (queue : List (WorkItem J))
      → IsSound p
      → p.workers ≡ before ++ (v ∷ after)
      → receive p.closed p.queue v ≡ some (queue, w)
      → IsSound (record p { queue = queue; workers = before ++ (w ∷ after) })
  take-IsSound p before after v w queue s e h =
      let rest = receive-rest p.closed p.queue queue v w h in
      record {
        once = λ c. omega (arith, take-holders p before after v w queue c e h, s.once c);
        fresh = λ c l. omega (arith, take-holders p before after v w queue c e h, s.fresh c l);
        bounded = omega (arith, rest, s.bounded);
        idle =
            ground (arith, rest, count_if-replace is_parked p.workers before after v w e, s.idle);
        stopped = ground (
          arith,
          rest,
          count_if-replace is_exited p.workers before after v w e,
          count_if-replace is_parked p.workers before after v w e,
          s.idle,
          s.stopped,
        );
      }

  -- A finished job moves from its worker to the results.
  pub finish-holders :
      (p : WorkerPool J R) (before after : List (WorkerState J)) (item : WorkItem J) (r : R) (c : ℕ)
      → p.workers ≡ before ++ (busy item ∷ after)
      → holders c (record p {
        results = (item.result, r) ∷ p.results;
        workers = before ++ (receiving ∷ after);
      })
        ≡ holders c p
  finish-holders p before after item r c e =
      ground (arith, count_if-replace (works_for c) p.workers before after (busy item) receiving e)

  pub finish-IsSound :
      (p : WorkerPool J R) (before after : List (WorkerState J)) (item : WorkItem J) (r : R)
      → IsSound p
      → p.workers ≡ before ++ (busy item ∷ after)
      → IsSound (record p {
        results = (item.result, r) ∷ p.results;
        workers = before ++ (receiving ∷ after);
      })
  finish-IsSound p before after item r s e = record {
    once = λ c. ground (arith, finish-holders p before after item r c e, s.once c);
    fresh = λ c l. ground (arith, finish-holders p before after item r c e, s.fresh c l);
    bounded = s.bounded;
    idle =
        ground (
          arith,
          count_if-replace is_parked p.workers before after (busy item) receiving e,
          s.idle,
        );
    stopped = ground (
      arith,
      count_if-replace is_exited p.workers before after (busy item) receiving e,
      s.stopped,
    );
  }

  pub close-IsSound : (p : WorkerPool J R) → IsSound p → IsSound (record p { closed = true })
  close-IsSound p s = record {
    once = s.once;
    fresh = s.fresh;
    bounded = s.bounded;
    idle = s.idle;
    stopped = ground (arith, s.stopped);
  }

-- ===== src/WorkerPool/Promises.antt =====
-- What a pool promises to its callers, and what Stop waits for (cmd/mistryd/worker_pool.go).
use mistry.Base.{
  ℕ, suc, ◌+◌, ◌*◌, ◌≤◌, ◌<◌, ◌≡◌, refl, inl, inr, true, none, some, List, [], ◌∷◌, ◌++◌, arith,
  length, count_if, Bool-cases, ◌==◌, nat_eq, list_eq, ◌⊎◌, ap, count-le,
}
use mistry.Base.Dict.{Dict, lookup}
use mistry.Types.{ok}
use mistry.WorkerPool.{
  WorkItem, WorkerState, receiving, parked, busy, exited, WorkerPool, new_worker_pool, receive,
  write_result, send_work, send_on, wait, Step, send, take, finish, close, Reach, here, next,
}
use mistry.WorkerPool.Invariant.{is_exited, is_for, works_for, holders, new-IsSound, is_parked}
use mistry.WorkerPool.Runs.{Reach-keeps, send_work-IsSent, write_result-busy}
use mistry.WorkerPool.Answers.{IsOf, Reach-IsOf, lookup-given, sent-IsOf}
use mathlib.Core.Path.{subst, sym}

module _ {J : Type 0} where
  all_exited-idle :
      (c : ℕ) (ws : List (WorkerState J))
      → count_if is_exited ws ≡ length ws
      → count_if (works_for c) ws ≡ 0
  all_exited-idle c [] e = refl
  all_exited-idle c (exited ∷ ws) e = all_exited-idle c ws (omega arith)
  all_exited-idle c (receiving ∷ ws) e = absurd (omega (arith, count-le is_exited ws))
  all_exited-idle c (parked ∷ ws) e = absurd (omega (arith, count-le is_exited ws))
  all_exited-idle c (busy item ∷ ws) e = absurd (omega (arith, count-le is_exited ws))

module _ {J R : Type 0} (Works : J → R → Type 0) where
  -- In each run of a new pool, if `SendWork` accepts a job, then in each state that the pool
  -- reaches afterwards the channel that it returned stands at exactly one place: the queue, a
  -- worker or a result.
  pub sent-kept :
      (concurrency backlog : ℕ) (p q r : WorkerPool J R) (j : J) (c : ℕ)
      → Reach Works (new_worker_pool concurrency backlog) p
      → send_work j p ≡ some (q, ok c)
      → Reach Works q r
      → holders c r ≡ 1
  sent-kept concurrency backlog p q r j c before sent after =
      let s = (Reach-keeps Works before (new-IsSound concurrency backlog)).0 in
      let now = send_work-IsSent p q j (ok c) s sent in
      let kept = Reach-keeps Works after now.sound in
      omega (arith, kept.1 c (omega (arith, now.channel, now.answered.0)), now.answered.1)

  -- In each run of a new pool, if `SendWork` accepts a job, then a result that `Wait` reads later
  -- from the channel that it returned is one that `Work` can return for this job.
  pub wait-result :
      (concurrency backlog : ℕ) (p q r : WorkerPool J R) (j : J) (c : ℕ) (result : R)
      → Reach Works (new_worker_pool concurrency backlog) p
      → send_work j p ≡ some (q, ok c)
      → Reach Works q r
      → wait c r ≡ some result
      → Works j result
  unfolding wait
  wait-result concurrency backlog p q r j c result before sent after h =
      let s = (Reach-keeps Works before (new-IsSound concurrency backlog)).0 in
      let now = send_work-IsSent p q j (ok c) s sent in
      let mine = Reach-IsOf Works j c after now.sound (omega (arith, now.channel, now.answered.0)) (
        subst (λ k. IsOf Works j k q) (sym now.answered.0) (sent-IsOf Works p q j (ok c) s sent)) in
      lookup-given Works j c result r.results h mine.given

  -- In each state that a new pool reaches the queue holds at most as many items as the backlog,
  -- each channel stands at no more than one place, and if a worker is parked the queue is empty.
  pub Reach-bounds :
      (concurrency backlog : ℕ) (p : WorkerPool J R) (c : ℕ)
      → Reach Works (new_worker_pool concurrency backlog) p
      → (length p.queue ≤ p.backlog_size)
        × (holders c p ≤ 1)
        × ((count_if is_parked p.workers ≡ 0) ⊎ (length p.queue ≡ 0))
  Reach-bounds concurrency backlog p c steps =
      let s = (Reach-keeps Works steps (new-IsSound concurrency backlog)).0 in
      (s.bounded, s.once c, s.idle)

  -- In each state that a new pool reaches, the write of a result by a worker that is in `Work`
  -- does not panic, whatever the result is.
  pub write_result-never_panics :
      (concurrency backlog : ℕ) (p : WorkerPool J R) (before after : List (WorkerState J))
      (item : WorkItem J) (r : R)
      → Reach Works (new_worker_pool concurrency backlog) p
      → p.workers ≡ before ++ (busy item ∷ after)
      → write_result item.result r p.results ≡ some ((item.result, r) ∷ p.results)
  write_result-never_panics concurrency backlog p before after item r steps =
      write_result-busy p before after item r
        (Reach-keeps Works steps (new-IsSound concurrency backlog)).0

  -- The work that is left in a pool: for each worker how far it is from its exit, and three for
  -- each item in the queue.
  abbrev pub distance : WorkerState J → ℕ
  distance receiving = 1
  distance parked = 1
  distance (busy item) = 2
  distance exited = 0

  abbrev pub distances : List (WorkerState J) → ℕ
  distances [] = 0
  distances (w ∷ ws) = distance w + distances ws

  abbrev pub left : WorkerPool J R → ℕ
  left p = 3 * length p.queue + distances p.workers

  distances-append :
      (xs ys : List (WorkerState J)) → distances (xs ++ ys) ≡ distances xs + distances ys
  distances-append [] ys = omega arith
  distances-append (x ∷ xs) ys = omega (arith, distances-append xs ys)

  receive-left :
      (queue queue' : List (WorkItem J)) (v w : WorkerState J)
      → receive true queue v ≡ some (queue', w)
      → 3 * length queue' + distance w < 3 * length queue + distance v
  unfolding receive
  receive-left (item ∷ queue) queue' receiving w h = ground arith
  receive-left [] queue' receiving w h = ground arith
  receive-left queue queue' parked w h = ground arith
  receive-left queue queue' (busy i) w h = cc
  receive-left queue queue' exited w h = cc

  -- `SendWork` panics on a closed queue.
  send_work-closed : (p : WorkerPool J R) (j : J) → p.closed ≡ true → send_work j p ≡ none
  unfolding send_work send_on
  send_work-closed p j e = rw e refl

  -- Once the queue is closed, each step leaves it closed and strictly less work.
  Step-stops :
      {p q : WorkerPool J R}
      → Step Works p q
      → p.closed ≡ true
      → (q.closed ≡ true) × (left q < left p)
  Step-stops (send p q j answer h) e = ground (arith, send_work-closed p j e)
  Step-stops (take p before after v w queue at h) e =
      let got : receive true p.queue v ≡ some (queue, w) =
        subst (λ closed. receive closed p.queue v ≡ some (queue, w)) e h in
      (
        e,
        omega (
          arith,
          ap distances at,
          distances-append before (v ∷ after),
          distances-append before (w ∷ after),
          receive-left p.queue queue v w got,
        ),
      )
  Step-stops (finish p before after item r results at works h) e = (
    e,
    omega (
      arith,
      ap distances at,
      distances-append before (busy item ∷ after),
      distances-append before (receiving ∷ after),
    ),
  )
  Step-stops (close p at) e = cc

  abbrev pub steps_of : {p q : WorkerPool J R} → Reach Works p q → ℕ
  steps_of here = 0
  steps_of (next steps step) = suc (steps_of steps)

  -- A pool whose queue is closed stops: it makes at most as many further steps as three for each
  -- item in the queue, two for each worker in `Work` and one for each other that has not exited.
  pub Reach-stops :
      {p q : WorkerPool J R} (steps : Reach Works p q)
      → p.closed ≡ true
      → (q.closed ≡ true) × (steps_of steps + left q ≤ left p)
  Reach-stops here e = (e, omega arith)
  Reach-stops (next steps step) e =
      let before = Reach-stops steps e in
      let after = Step-stops step before.0 in (after.0, omega (arith, before.1, after.1))

  found :
      (c : ℕ) (results : Dict ℕ R)
      → count_if (λ entry. entry.0 == c) results ≡ 1
      → (r : R) × (lookup c results ≡ some r)
  unfolding lookup
  found c [] h = cc
  found c ((k, r) ∷ results) h = elim (Bool-cases (c == k)) [
    | inl e ↦ (r, ground arith)
    | inr e ↦ let rest = found c results (ground arith) in (rest.0, ground (arith, rest.1))
  ]

  -- In each run of a new pool: if `SendWork` accepts a job, and later all workers have exited, of
  -- which there is at least one, then `Wait` returns for its channel a result that `Work` can return for
  -- this job.
  pub stop-answers :
      (concurrency backlog : ℕ) (p q r : WorkerPool J R) (j : J) (c : ℕ)
      → Reach Works (new_worker_pool concurrency backlog) p
      → send_work j p ≡ some (q, ok c)
      → Reach Works q r
      → count_if is_exited r.workers ≡ length r.workers
      → 0 < length r.workers
      → (result : R) × ((wait c r ≡ some result) × Works j result)
  unfolding wait
  stop-answers concurrency backlog p q r j c before sent after out some_worker =
      let s =
        (Reach-keeps Works after
          (send_work-IsSent p q j (ok c)
            (Reach-keeps Works before (new-IsSound concurrency backlog)).0 sent).sound).0 in
      let empty : length r.queue ≡ 0 = ground (arith, s.stopped) in
      let got = found c r.results (
        omega (
          arith,
          sent-kept concurrency backlog p q r j c before sent after,
          all_exited-idle c r.workers out,
          count-le (is_for c) r.queue,
        )) in
      (got.0, (got.1, wait-result concurrency backlog p q r j c got.0 before sent after got.1))

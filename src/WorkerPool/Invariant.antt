-- ===== src/WorkerPool/Invariant.antt =====
-- What holds of a pool (cmd/mistryd/worker_pool.go) in each state that its steps reach.
use mistry.Base.{
  bit, zero, ℕ, ◌+◌, ◌≡◌, refl, inl, inr, Bool, true, false, none, some, List, [], ◌∷◌, ◌++◌, arith,
  Option-cases, count_if, count_if-append, ◌==◌, nat_eq, list_eq, suc, ◌≤◌, ltb, length,
  length-append, ◌⊎◌,
}
use mistry.WorkerPool.{
  WorkItem, WorkerState, receiving, parked, busy, exited, hand_over, start_workers, new_worker_pool,
  WorkerPool,
}

module _ {J : Type 0} where
  abbrev pub is_parked : WorkerState J → Bool
  is_parked parked = true
  is_parked receiving = false
  is_parked (busy i) = false
  is_parked exited = false

  abbrev pub is_exited : WorkerState J → Bool
  is_exited exited = true
  is_exited parked = false
  is_exited receiving = false
  is_exited (busy i) = false

  abbrev pub is_for : ℕ → WorkItem J → Bool
  is_for c item = item.result == c

  abbrev pub works_for : ℕ → WorkerState J → Bool
  works_for c (busy i) = i.result == c
  works_for c parked = false
  works_for c receiving = false
  works_for c exited = false

  -- A handed-over item takes the place of a parked worker.
  pub hand_over-count :
      (f : WorkerState J → Bool) (item : WorkItem J) (ws ws' : List (WorkerState J))
      → hand_over item ws ≡ some ws'
      → count_if f ws' + bit (f parked) ≡ count_if f ws + bit (f (busy item))
  unfolding hand_over
  hand_over-count f item [] ws' h = cc
  hand_over-count f item (parked ∷ ws) ws' h = ground arith
  hand_over-count f item (receiving ∷ ws) ws' h = elim (Option-cases (hand_over item ws)) [
    | inl e ↦ ground arith
    | inr (v, e) ↦ ground (arith, hand_over-count f item ws v e)
  ]
  hand_over-count f item (busy i ∷ ws) ws' h = elim (Option-cases (hand_over item ws)) [
    | inl e ↦ ground arith
    | inr (v, e) ↦ ground (arith, hand_over-count f item ws v e)
  ]
  hand_over-count f item (exited ∷ ws) ws' h = elim (Option-cases (hand_over item ws)) [
    | inl e ↦ ground arith
    | inr (v, e) ↦ ground (arith, hand_over-count f item ws v e)
  ]

  pub hand_over-none :
      (item : WorkItem J) (ws : List (WorkerState J))
      → hand_over item ws ≡ none
      → count_if is_parked ws ≡ 0
  unfolding hand_over
  hand_over-none item [] h = refl
  hand_over-none item (parked ∷ ws) h = cc
  hand_over-none item (receiving ∷ ws) h = ground (arith, hand_over-none item ws)
  hand_over-none item (busy i ∷ ws) h = ground (arith, hand_over-none item ws)
  hand_over-none item (exited ∷ ws) h = ground (arith, hand_over-none item ws)

-- The places of the item, or of the result, of a channel.
abbrev pub holders : {J R : Type 0} → ℕ → WorkerPool J R → ℕ
holders c p =
    count_if (is_for c) p.queue
    + (count_if (works_for c) p.workers + count_if (λ e. e.0 == c) p.results)

-- No channel has two places, and none that is yet to be made has one; the queue is within the
-- backlog; a worker is parked only at an empty queue, and exited only if it is also closed.
pub record IsSound {J R : Type 0} (p : WorkerPool J R) : Type 0 where
  pub once : (c : ℕ) → holders c p ≤ 1
  pub fresh : (c : ℕ) → p.channels ≤ c → holders c p ≡ 0
  pub bounded : length p.queue ≤ p.backlog_size
  pub idle : (count_if is_parked p.workers ≡ 0) ⊎ (length p.queue ≡ 0)
  pub stopped : (count_if is_exited p.workers ≡ 0) ⊎ ((length p.queue ≡ 0) × (p.closed ≡ true))

start-count :
    {J : Type 0} (f : WorkerState J → Bool) (n : ℕ)
    → f receiving ≡ false
    → count_if f (start_workers n) ≡ 0
start-count f zero h = refl
start-count f (suc n) h = ground (arith, start-count f n h)

module _ {J R : Type 0} where
  pub new-IsSound :
      (concurrency backlog : ℕ) → IsSound (new_worker_pool {J = J} {R = R} concurrency backlog)
  new-IsSound concurrency backlog = record {
    once = λ c. ground (arith, start-count {J = J} (works_for c) concurrency refl);
    fresh = λ c _. ground (arith, start-count {J = J} (works_for c) concurrency refl);
    bounded = omega arith;
    idle = inr refl;
    stopped = inl (start-count is_exited concurrency refl);
  }

  pub handed-IsSound :
      (p : WorkerPool J R) (item : WorkItem J) (ws : List (WorkerState J))
      → IsSound p
      → item.result ≡ p.channels
      → p.closed ≡ false
      → hand_over item p.workers ≡ some ws
      → IsSound (record p { channels = suc p.channels; workers = ws })
  handed-IsSound p item ws s e open_ h = record {
    once =
        λ c. ground (arith, hand_over-count (works_for c) item p.workers ws h, s.once c, s.fresh c);
    fresh = λ c l.
        ground (arith, hand_over-count (works_for c) item p.workers ws h, s.once c, s.fresh c);
    bounded = s.bounded;
    idle = ground (arith, hand_over-count is_parked item p.workers ws h, s.idle);
    stopped = ground (arith, hand_over-count is_exited item p.workers ws h, s.stopped);
  }

  pub queued-IsSound :
      (p : WorkerPool J R) (item : WorkItem J)
      → IsSound p
      → item.result ≡ p.channels
      → p.closed ≡ false
      → hand_over item p.workers ≡ none
      → ltb (length p.queue) p.backlog_size ≡ true
      → IsSound (record p { channels = suc p.channels; queue = p.queue ++ (item ∷ []) })
  queued-IsSound p item s e open_ h room = record {
    once = λ c. ground (arith, count_if-append (is_for c) p.queue (item ∷ []), s.once c, s.fresh c);
    fresh =
        λ c l. ground (arith, count_if-append (is_for c) p.queue (item ∷ []), s.once c, s.fresh c);
    bounded = ground (arith, length-append p.queue (item ∷ []));
    idle = inl (hand_over-none item p.workers h);
    stopped = ground (arith, s.stopped);
  }

  pub refused-IsSound :
      (p : WorkerPool J R)
      → IsSound p
      → p.closed ≡ false
      → IsSound (record p { channels = suc p.channels })
  refused-IsSound p s e = record {
    once = s.once;
    fresh = λ c l. s.fresh c (omega arith);
    bounded = s.bounded;
    idle = s.idle;
    stopped = ground (arith, s.stopped);
  }

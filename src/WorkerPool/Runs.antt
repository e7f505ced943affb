-- ===== src/WorkerPool/Runs.antt =====
-- Runs of a pool (cmd/mistryd/worker_pool.go): sequences of its steps.
use mistry.Base.{
  count_if-replace, ℕ, suc, ◌≤◌, ◌<◌, ◌≡◌, refl, inl, inr, Bool, true, false, Option, none, some,
  List, [], ◌∷◌, ◌++◌, arith, ltb, Option-cases, length, count_if, count_if-append, Bool-cases,
  nat_eq, list_eq,
}
use mistry.Types.{GoError, Result, ok, err}
use mistry.WorkerPool.{
  WorkItem, WorkerState, receiving, busy, WorkerPool, hand_over, write_result, send_work, enqueue,
  send_on, Step, send, take, finish, close, Reach, here, next,
}
use mistry.WorkerPool.Invariant.{
  is_parked, is_for, works_for, hand_over-count, hand_over-none, holders, IsSound, handed-IsSound,
  queued-IsSound, refused-IsSound,
}
use mistry.WorkerPool.Keeping.{
  take-holders, take-IsSound, finish-holders, finish-IsSound, close-IsSound, write_result-free,
}
use mathlib.Core.Path.{subst}

module _ {J R : Type 0} where
  -- The channel of an accepted job has one place; that of a refused one has none.
  abbrev pub Answered : Result ℕ → WorkerPool J R → WorkerPool J R → Type 0
  Answered (ok c) p q = (c ≡ p.channels) × (holders c q ≡ 1)
  Answered (err _) p q =
      (holders p.channels q ≡ 0)
      × (p.backlog_size ≤ length p.queue)
      × (count_if is_parked p.workers ≡ 0)

  -- What a call of `SendWork` that does not panic leaves.
  pub record IsSent (p q : WorkerPool J R) (answer : Result ℕ) : Type 0 where
    pub sound : IsSound q
    pub others : (c : ℕ) → c < p.channels → holders c q ≡ holders c p
    pub channel : q.channels ≡ suc p.channels
    pub answered : Answered answer p q

  abbrev SentFrom : WorkerPool J R → Option (WorkerPool J R × Result ℕ) → Type 0
  SentFrom p none = Unit
  SentFrom p (some (q, answer)) = IsSent p q answer

  handed-IsSent :
      (p : WorkerPool J R) (item : WorkItem J) (ws : List (WorkerState J))
      → IsSound p
      → item.result ≡ p.channels
      → p.closed ≡ false
      → hand_over item p.workers ≡ some ws
      → IsSent p (record p { channels = suc p.channels; workers = ws }) (ok item.result)
  handed-IsSent p item ws s e open_ h = record {
    sound = handed-IsSound p item ws s e open_ h;
    others = λ c l. ground (arith, hand_over-count (works_for c) item p.workers ws h);
    channel = refl;
    answered = (
      e,
      ground (
        arith,
        hand_over-count (works_for item.result) item p.workers ws h,
        s.fresh item.result (omega arith),
      ),
    );
  }

  queued-IsSent :
      (p : WorkerPool J R) (item : WorkItem J)
      → IsSound p
      → item.result ≡ p.channels
      → p.closed ≡ false
      → hand_over item p.workers ≡ none
      → ltb (length p.queue) p.backlog_size ≡ true
      → IsSent p
          (record p { channels = suc p.channels; queue = p.queue ++ (item ∷ []) })
          (ok item.result)
  queued-IsSent p item s e open_ h room = record {
    sound = queued-IsSound p item s e open_ h room;
    others = λ c l. ground (arith, count_if-append (is_for c) p.queue (item ∷ []));
    channel = refl;
    answered = (
      e,
      ground (
        arith,
        count_if-append (is_for item.result) p.queue (item ∷ []),
        s.fresh item.result (omega arith),
      ),
    );
  }

  refused-IsSent :
      (p : WorkerPool J R) (item : WorkItem J) (e : GoError)
      → IsSound p
      → p.closed ≡ false
      → hand_over item p.workers ≡ none
      → ltb (length p.queue) p.backlog_size ≡ false
      → IsSent p (record p { channels = suc p.channels }) (err e)
  refused-IsSent p item e s open_ h full = record {
    sound = refused-IsSound p s open_;
    others = λ c l. refl;
    channel = refl;
    answered = (s.fresh p.channels (omega arith), ground arith, hand_over-none item p.workers h);
  }

  send_on-IsSent :
      (p : WorkerPool J R) (item : WorkItem J) (closed : Bool)
      → IsSound p
      → item.result ≡ p.channels
      → p.closed ≡ closed
      → SentFrom p (send_on closed item p)
  unfolding send_on enqueue
  send_on-IsSent p item true s e shut = tt
  send_on-IsSent p item false s e shut = elim (Option-cases (hand_over item p.workers)) [
    | inl h ↦ elim (Bool-cases (ltb (length p.queue) p.backlog_size)) [
      | inl room ↦ rw (h, room) (queued-IsSent p item s e shut h room)
      | inr full ↦ rw (h, full) (refused-IsSent p item _ s shut h full)
    ]
    | inr (ws, h) ↦ rw h (handed-IsSent p item ws s e shut h)
  ]

  pub send_work-IsSent :
      (p q : WorkerPool J R) (j : J) (answer : Result ℕ)
      → IsSound p
      → send_work j p ≡ some (q, answer)
      → IsSent p q answer
  unfolding send_work
  send_work-IsSent p q j answer s h =
      subst (SentFrom p) h
        (send_on-IsSent p (record { job = j; result = p.channels }) p.closed s refl refl)

  -- The result channel of the item of a busy worker is empty: the write to it does not panic.
  pub write_result-busy :
      (p : WorkerPool J R) (before after : List (WorkerState J)) (item : WorkItem J) (r : R)
      → IsSound p
      → p.workers ≡ before ++ (busy item ∷ after)
      → write_result item.result r p.results ≡ some ((item.result, r) ∷ p.results)
  write_result-busy p before after item r s e = write_result-free item.result r p.results (
      ground (
        arith,
        s.once item.result,
        count_if-replace (works_for item.result) p.workers before after (busy item) receiving e,
      ))

module _ {J R : Type 0} (Works : J → R → Type 0) where
  -- A step keeps the invariant, every channel made before keeps its places, and none is unmade.
  pub Step-keeps :
      {p q : WorkerPool J R}
      → Step Works p q
      → IsSound p
      → IsSound q
        × ((c : ℕ) → c < p.channels → holders c q ≡ holders c p)
        × (p.channels ≤ q.channels)
  Step-keeps (send p q j answer h) s =
      let sent = send_work-IsSent p q j answer s h in
      (sent.sound, sent.others, omega (arith, sent.channel))
  Step-keeps (take p before after v w queue e h) s = (
    take-IsSound p before after v w queue s e h,
    λ c _. take-holders p before after v w queue c e h,
    omega arith,
  )
  Step-keeps (finish p before after item r results e works h) s =
      let written : results ≡ (item.result, r) ∷ p.results =
        ground (arith, write_result-busy p before after item r s e) in
      rw written (
        finish-IsSound p before after item r s e,
        λ c _. finish-holders p before after item r c e,
        omega arith,
      )
  Step-keeps (close p e) s = (close-IsSound p s, λ c _. refl, omega arith)

  pub Reach-keeps :
      {p q : WorkerPool J R}
      → Reach Works p q
      → IsSound p
      → IsSound q
        × ((c : ℕ) → c < p.channels → holders c q ≡ holders c p)
        × (p.channels ≤ q.channels)
  Reach-keeps here s = (s, λ c _. refl, omega arith)
  Reach-keeps (next steps step) s =
      let before = Reach-keeps steps s in
      let after = Step-keeps step before.0 in
      (
        after.0,
        λ c l. omega (arith, before.1 c l, before.2, after.1 c (omega (arith, before.2))),
        omega (arith, before.2, after.2),
      )

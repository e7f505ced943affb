-- ===== src/WorkerPool/Answers.antt =====
-- What the caller of SendWork gets (cmd/mistryd/worker_pool.go): the result of its own job.
use mistry.Base.Dict.{Dict, lookup}
use mistry.WorkerPool.{
  here, WorkItem, WorkerState, receiving, parked, busy, exited, WorkerPool, hand_over, send_on,
  receive, enqueue, Result, Reach, send_work, Step, send, next, take, finish, close,
}
use mistry.Base.{
  refl, ℕ, ◌≡◌, inl, inr, some, List, [], ◌∷◌, arith, Option-cases, All, nat_eq, list_eq, Option,
  count_if, Bool-cases, ◌==◌, Bool, ltb, length, All-append, All-replace, All-split, ◌<◌, none,
  true, false,
}
use mistry.WorkerPool.Invariant.{is_for, works_for, IsSound}
use mathlib.Core.Path.{subst}
use mistry.WorkerPool.Runs.{Reach-keeps, write_result-busy}

module _ {J R : Type 0} (Works : J → R → Type 0) (j : J) (c : ℕ) where
  -- Only the job `j` stands at the channel `c`.
  abbrev ItemIsOf : WorkItem J → Type 0
  ItemIsOf item = item.result ≡ c → item.job ≡ j

  abbrev WorkerIsOf : WorkerState J → Type 0
  WorkerIsOf receiving = Unit
  WorkerIsOf parked = Unit
  WorkerIsOf exited = Unit
  WorkerIsOf (busy item) = ItemIsOf item

  abbrev EntryIsOf : ℕ × R → Type 0
  EntryIsOf e = e.0 ≡ c → Works j e.1

  pub record IsOf (p : WorkerPool J R) : Type 0 where
    pub queued : All ItemIsOf p.queue
    pub worked : All WorkerIsOf p.workers
    pub given : All EntryIsOf p.results

  hand_over-IsOf :
      (item : WorkItem J) (ws ws' : List (WorkerState J))
      → hand_over item ws ≡ some ws'
      → ItemIsOf item
      → All WorkerIsOf ws
      → All WorkerIsOf ws'
  unfolding hand_over
  hand_over-IsOf item [] ws' h i a = cc
  hand_over-IsOf item (parked ∷ ws) ws' h i a = ground (arith, i, a)
  hand_over-IsOf item (receiving ∷ ws) ws' h i a = elim (Option-cases (hand_over item ws)) [
    | inl e ↦ ground arith
    | inr (v, e) ↦ ground (arith, hand_over-IsOf item ws v e i a.1)
  ]
  hand_over-IsOf item (busy w ∷ ws) ws' h i a = elim (Option-cases (hand_over item ws)) [
    | inl e ↦ ground arith
    | inr (v, e) ↦ ground (arith, a, hand_over-IsOf item ws v e i a.1)
  ]
  hand_over-IsOf item (exited ∷ ws) ws' h i a = elim (Option-cases (hand_over item ws)) [
    | inl e ↦ ground arith
    | inr (v, e) ↦ ground (arith, hand_over-IsOf item ws v e i a.1)
  ]

  none-queued : (q : List (WorkItem J)) → count_if (is_for c) q ≡ 0 → All ItemIsOf q
  none-queued [] h = tt
  none-queued (item ∷ q) h = (ground arith, none-queued q (ground arith))

  none-worked : (ws : List (WorkerState J)) → count_if (works_for c) ws ≡ 0 → All WorkerIsOf ws
  none-worked [] h = tt
  none-worked (receiving ∷ ws) h = (tt, none-worked ws (ground arith))
  none-worked (parked ∷ ws) h = (tt, none-worked ws (ground arith))
  none-worked (exited ∷ ws) h = (tt, none-worked ws (ground arith))
  none-worked (busy item ∷ ws) h = (ground arith, none-worked ws (ground arith))

  none-given : (results : Dict ℕ R) → count_if (λ e. e.0 == c) results ≡ 0 → All EntryIsOf results
  none-given [] h = tt
  none-given ((k, r) ∷ results) h = (ground arith, none-given results (ground arith))

  pub lookup-given :
      (r : R) (results : Dict ℕ R) → lookup c results ≡ some r → All EntryIsOf results → Works j r
  unfolding lookup
  lookup-given r [] h a = cc
  lookup-given r ((k, v) ∷ results) h a = elim (Bool-cases (c == k)) [
    | inl e ↦ subst (Works j) (ground arith) (a.0 (ground arith))
    | inr e ↦ lookup-given r results (ground arith) a.1
  ]

  -- A call of `SendWork` on a pool in which only `j` stands at `c`, for another channel or for `j`.
  abbrev OfAfter : Option (WorkerPool J R × Result ℕ) → Type 0
  OfAfter none = Unit
  OfAfter (some (q, answer)) = IsOf q

  send_on-IsOf :
      (p : WorkerPool J R) (item : WorkItem J) (closed : Bool)
      → ItemIsOf item
      → IsOf p
      → OfAfter (send_on closed item p)
  unfolding send_on enqueue
  send_on-IsOf p item true i o = tt
  send_on-IsOf p item false i o = elim (Option-cases (hand_over item p.workers)) [
    | inl h ↦ elim (Bool-cases (ltb (length p.queue) p.backlog_size)) [
      | inl room ↦
          rw (h, room)
            (record {
              queued = All-append ItemIsOf p.queue (item ∷ []) o.queued (i, tt);
              worked = o.worked;
              given = o.given;
            })
      | inr full ↦ rw (h, full) (record { queued = o.queued; worked = o.worked; given = o.given })
    ]
    | inr (ws, h) ↦ rw h (record {
      queued = o.queued;
      worked = hand_over-IsOf item p.workers ws h i o.worked;
      given = o.given;
    })
  ]

  abbrev OfReceive : Option (List (WorkItem J) × WorkerState J) → Type 0
  OfReceive none = Unit
  OfReceive (some (queue, w)) = All ItemIsOf queue × WorkerIsOf w

  receive-IsOf :
      (closed : Bool) (queue : List (WorkItem J)) (v : WorkerState J)
      → All ItemIsOf queue
      → OfReceive (receive closed queue v)
  unfolding receive
  receive-IsOf closed (item ∷ queue) receiving a = (a.1, a.0)
  receive-IsOf false [] receiving a = (tt, tt)
  receive-IsOf true [] receiving a = (tt, tt)
  receive-IsOf true queue parked a = (a, tt)
  receive-IsOf false queue parked a = tt
  receive-IsOf closed queue (busy i) a = tt
  receive-IsOf closed queue exited a = tt

  Step-IsOf : {p q : WorkerPool J R} → Step Works p q → IsSound p → c < p.channels → IsOf p → IsOf q
  unfolding send_work
  Step-IsOf (send p q k answer h) s l o = subst OfAfter h (
      send_on-IsOf p (record { job = k; result = p.channels }) p.closed (λ e. absurd (omega arith))
        o)
  Step-IsOf (take p before after v w queue e h) s l o =
      let got = subst OfReceive h (receive-IsOf p.closed p.queue v o.queued) in
      record {
        queued = got.0;
        worked = All-replace WorkerIsOf before after v w got.1 (subst (All WorkerIsOf) e o.worked);
        given = o.given;
      }
  Step-IsOf (finish p before after item r results e works h) s l o =
      let mine =
        (All-split WorkerIsOf before after (busy item) (subst (All WorkerIsOf) e o.worked)).1.0 in
      let written : results ≡ (item.result, r) ∷ p.results =
        ground (arith, write_result-busy p before after item r s e) in
      record {
        queued = o.queued;
        worked =
            All-replace WorkerIsOf before after (busy item) receiving tt
              (subst (All WorkerIsOf) e o.worked);
        given = rw written ((λ same. subst (λ k. Works k r) (mine same) works), o.given);
      }
  Step-IsOf (close p e) s l o = record { queued = o.queued; worked = o.worked; given = o.given }

  pub Reach-IsOf :
      {p q : WorkerPool J R} → Reach Works p q → IsSound p → c < p.channels → IsOf p → IsOf q
  Reach-IsOf here s l o = o
  Reach-IsOf (next steps step) s l o =
      let kept = Reach-keeps Works steps s in
      Step-IsOf step kept.0 (omega (arith, kept.2)) (Reach-IsOf steps s l o)

module _ {J R : Type 0} (Works : J → R → Type 0) where
  pub sent-IsOf :
      (p q : WorkerPool J R) (j : J) (answer : Result ℕ)
      → IsSound p
      → send_work j p ≡ some (q, answer)
      → IsOf Works j p.channels q
  unfolding send_work
  sent-IsOf p q j answer s h =
      let free = s.fresh p.channels (omega arith) in
      subst (OfAfter Works j p.channels) h (
        send_on-IsOf Works j p.channels p (record { job = j; result = p.channels }) p.closed
          (λ _. refl)
          (record {
            queued = none-queued Works j p.channels p.queue (omega (arith, free));
            worked = none-worked Works j p.channels p.workers (omega (arith, free));
            given = none-given Works j p.channels p.results (omega (arith, free));
          }))

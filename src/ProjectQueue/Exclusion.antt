-- ===== src/ProjectQueue/Exclusion.antt =====
-- Who has locked a project (cmd/mistryd/project_queue.go): one goroutine at most, which never blocks
-- another one for good.
use mistry.Base.{
  bit-at-most, ℕ, ◌<◌, ◌≡◌, ◌≢◌, refl, ◌⊎◌, inl, inr, Bool, true, false, List, ◌∷◌, ◌++◌, arith,
  Option-cases, count_if, count_if-append, count_if-split, All-split, All, Bool-cases, nat_eq,
  list_eq,
}
use mistry.Base.Dict.{lookup}
use mistry.Base.Text.{Str}
use mathlib.Core.Path.{subst, ap}
use mistry.ProjectQueue.{
  ProjectQueue, Thread, outside, locking, looking, waiting, inside, unlocking, releasing, goes,
  panics, set_locked, find_mutex, release, turn, System, start_system, Reach,
}
use mistry.ProjectQueue.Invariant.{has_mu, holds, locked_at, locked_for, WaitsFor, IsSound}
use mistry.ProjectQueue.Moves.{MovesBy}
use mistry.ProjectQueue.Keeping.{turn-moves, Reach-IsSound}

-- The goroutine is in a call of `Lock` or `Unlock`.
abbrev pub in_call : Thread → Bool
in_call outside = false
in_call (inside _) = false
in_call (locking _) = true
in_call (looking _) = true
in_call (waiting _ _) = true
in_call (unlocking _) = true
in_call (releasing _) = true

abbrev pub is_inside : Thread → Bool
is_inside outside = false
is_inside (inside _) = true
is_inside (locking _) = false
is_inside (looking _) = false
is_inside (waiting _ _) = false
is_inside (unlocking _) = false
is_inside (releasing _) = false

-- Some goroutine makes a step of its own.
abbrev pub CanRun : System → Type 0
CanRun s =
    (before : List Thread) × ((v : Thread) × ((after : List Thread) × ((s.threads
            ≡ before ++ (v ∷ after))
          × ((w : Thread) × ((q : ProjectQueue) × (turn v s.queue ≡ goes w q))))))

abbrev Goes : Thread → ProjectQueue → Type 0
Goes v q = (w : Thread) × ((r : ProjectQueue) × (turn v q ≡ goes w r))

-- A goroutine that has `q.mu` does not wait.
guard-Goes : (q : ProjectQueue) (v : Thread) → has_mu v ≡ true → turn v q ≢ panics → Goes v q
unfolding turn find_mutex release
guard-Goes q outside h p = cc
guard-Goes q (locking x) h p = cc
guard-Goes q (waiting x m) h p = cc
guard-Goes q (inside x) h p = cc
guard-Goes q (unlocking x) h p = cc
guard-Goes q (looking x) h p = elim (Option-cases (lookup x q.p)) [
  | inl e ↦ (_, (_, ap (find_mutex x q) e))
  | inr (m, e) ↦ (_, (_, ap (find_mutex x q) e))
]
guard-Goes q (releasing x) h p = elim (Option-cases (lookup x q.p)) [
  | inl e ↦ absurd (p (ap (release x q) e))
  | inr (m, e) ↦ elim (Bool-cases (q.locked m)) [
    | inl k ↦ (outside, (record (set_locked m false q) { mu = false }, ground (arith, e, k)))
    | inr k ↦ absurd (p (ground (arith, e, k)))
  ]
]

-- Where `q.mu` is free, only a locked project makes a goroutine wait.
free-Goes :
    (q : ProjectQueue) (v : Thread)
    → q.mu ≡ false
    → in_call v ≡ true
    → has_mu v ≡ false
    → Goes v q ⊎ ((x : Str) × ((m : ℕ) × ((v ≡ waiting x m) × (q.locked m ≡ true))))
unfolding turn
free-Goes q outside f c h = cc
free-Goes q (looking x) f c h = cc
free-Goes q (inside x) f c h = cc
free-Goes q (releasing x) f c h = cc
free-Goes q (locking x) f c h = inl (looking x, (record q { mu = true }, ground (arith, f)))
free-Goes q (unlocking x) f c h = inl (releasing x, (record q { mu = true }, ground (arith, f)))
free-Goes q (waiting x m) f c h = elim (Bool-cases (q.locked m)) [
  | inl k ↦ inr (x, (m, (refl, k)))
  | inr k ↦ inl (inside x, (set_locked m true q, ground (arith, k)))
]

-- Who holds a project is inside, or in `Unlock`.
holder-cases : (P : Str) (v : Thread) → holds P v ≡ true → (is_inside v ≡ true) ⊎ (in_call v ≡ true)
holder-cases P (inside x) h = inl refl
holder-cases P (unlocking x) h = inr refl
holder-cases P (releasing x) h = inr refl
holder-cases P outside h = cc
holder-cases P (locking x) h = cc
holder-cases P (looking x) h = cc
holder-cases P (waiting x m) h = cc

module _ (n : ℕ) (s : System) (reach : Reach (start_system n) s) where
  never-panics :
      (before after : List Thread) (v : Thread)
      → s.threads ≡ before ++ (v ∷ after)
      → turn v s.queue ≢ panics
  never-panics before after v e p =
      subst (MovesBy s.queue v) p (turn-moves s (Reach-IsSound n s reach) before after v e)

  -- In every state that is reached from the start, while a goroutine holds a project, from the end of
  -- `Lock` to the end of `Unlock`, no other one holds it, and its next statement does not panic.
  pub mutual_exclusion :
      (before after : List Thread) (v : Thread) (project : Str)
      → s.threads ≡ before ++ (v ∷ after)
      → holds project v ≡ true
      → (count_if (holds project) (before ++ after) ≡ 0) × (turn v s.queue ≢ panics)
  mutual_exclusion before after v P e k = (
    ground (
      arith,
      (Reach-IsSound n s reach).owned P,
      ap (count_if (holds P)) e,
      count_if-append (holds P) before (v ∷ after),
      count_if-append (holds P) before after,
      k,
      bit-at-most (locked_for P s.queue),
    ),
    never-panics before after v e,
  )

  sound : IsSound s
  sound = Reach-IsSound n s reach

  -- A mutex for which a goroutine waits is locked by some goroutine.
  holder :
      (before after : List Thread) (x : Str) (m : ℕ)
      → s.threads ≡ before ++ (waiting x m ∷ after)
      → s.queue.locked m ≡ true
      → 0 < count_if (holds x) s.threads
  holder before after x m e k = ground (
    arith,
    sound.owned x,
    k,
    ap (locked_at s.queue)
        (All-split (WaitsFor s.queue) before after (waiting x m)
          (subst (All (WaitsFor s.queue)) e sound.waits)).1.0,
  )

  guarded-runs : 0 < count_if has_mu s.threads → CanRun s
  guarded-runs p =
      let (before, (v, (after, (e, k)))) = count_if-split has_mu s.threads p in
      (before, (v, (after, (e, guard-Goes s.queue v k (never-panics before after v e)))))

  -- A goroutine that waits for no project can run, or one that has `q.mu` can.
  call-runs :
      (before after : List Thread) (v : Thread)
      → s.threads ≡ before ++ (v ∷ after)
      → in_call v ≡ true
      → CanRun s ⊎ ((x : Str) × ((m : ℕ) × ((v ≡ waiting x m) × (s.queue.locked m ≡ true))))
  call-runs before after v e c = elim (Bool-cases s.queue.mu) [
    | inl mu ↦ inl (guarded-runs (ground (arith, sound.guarded, mu)))
    | inr mu ↦ elim (Bool-cases (has_mu v)) [
      | inl k ↦ inl (
          guarded-runs
            (ground (arith, k, ap (count_if has_mu) e, count_if-append has_mu before (v ∷ after))))
      | inr k ↦ elim (free-Goes s.queue v mu c k) [
        | inl g ↦ inl (before, (v, (after, (e, g))))
        | inr w ↦ inr w
      ]
    ]
  ]

  -- In every state that is reached from the start where some goroutine is in a call of `Lock` or
  -- `Unlock`, one of those in such a call can make its next step, or a goroutine has locked a project
  -- and has yet to call `Unlock`.
  pub never_stuck : 0 < count_if in_call s.threads → CanRun s ⊎ (0 < count_if is_inside s.threads)
  never_stuck p =
      let (before, (v, (after, (e, c)))) = count_if-split in_call s.threads p in
      elim (call-runs before after v e c) [
        | inl run ↦ inl run
        | inr (x, (m, (w, k))) ↦
            let (front, (u, (back, (i, o)))) =
              count_if-split (holds x) s.threads
                (holder before after x m (subst (λ y. s.threads ≡ before ++ (y ∷ after)) w e) k) in
            elim (holder-cases x u o) [
              | inl j ↦ inr (
                  ground (
                    arith,
                    j,
                    ap (count_if is_inside) i,
                    count_if-append is_inside front (u ∷ back),
                  ))
              | inr j ↦ elim (call-runs front back u i j) [
                | inl run ↦ inl run
                | inr (y, (l, (z, _))) ↦ absurd (ground (arith, o, ap (holds x) z))
              ]
            ]
      ]

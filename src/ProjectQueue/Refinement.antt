-- ===== src/ProjectQueue/Refinement.antt =====
-- The project queue (cmd/mistryd/project_queue.go) implements one lock for each project.
use mistry.Base.{
  ℕ, ◌≡◌, refl, ◌⊎◌, inl, inr, Bool, true, false, Option, none, some, List, [], ◌∷◌, ◌++◌, arith,
  count_if, All-split, All, Bool-cases, ◌==◌, nat_eq, list_eq,
}
use mistry.Base.Dict.{lookup}
use mistry.Base.Text.{Str}
use mathlib.Core.Path.{subst, sym, ap, ◌∙◌}
use mistry.ProjectQueue.{
  ProjectQueue, Thread, outside, locking, looking, waiting, inside, unlocking, releasing, Turn,
  blocks, goes, panics, set_locked, find_mutex, release, turn, System, start_system, Step,
  calls_lock, calls_unlock, runs, Reach,
}
use mistry.ProjectQueue.Invariant.{holds, locked_at, locked_for, WaitsFor, IsSound}
use mistry.ProjectQueue.Keeping.{Reach-IsSound}

-- What a user of the queue knows: the project that each goroutine has locked.
abbrev pub Holding : Type 0
Holding = List (Option Str)

abbrev pub has : Str → Option Str → Bool
has project none = false
has project (some x) = x == project

-- A goroutine locks a project that none has locked, or unlocks the one that it has.
pub data LockStep : Holding → Holding → Type 0 where
  acquires :
      (vs before after : Holding) (project : Str)
      → vs ≡ before ++ (none ∷ after)
      → count_if (has project) vs ≡ 0
      → LockStep vs (before ++ (some project ∷ after))
  releases :
      (vs before after : Holding) (project : Str)
      → vs ≡ before ++ (some project ∷ after)
      → LockStep vs (before ++ (none ∷ after))

-- A project is locked at the end of `Lock`, and unlocked at the end of `Unlock`.
abbrev pub held_by : Thread → Option Str
held_by outside = none
held_by (locking _) = none
held_by (looking _) = none
held_by (waiting _ _) = none
held_by (inside project) = some project
held_by (unlocking project) = some project
held_by (releasing project) = some project

abbrev pub holding : List Thread → Holding
holding [] = []
holding (v ∷ vs) = held_by v ∷ holding vs

holding-append : (xs ys : List Thread) → holding (xs ++ ys) ≡ holding xs ++ holding ys
holding-append [] ys = refl
holding-append (x ∷ xs) ys = ap (λ r. held_by x ∷ r) (holding-append xs ys)

has-holds : (P : Str) (v : Thread) → has P (held_by v) ≡ holds P v
has-holds P outside = refl
has-holds P (locking _) = refl
has-holds P (looking _) = refl
has-holds P (waiting _ _) = refl
has-holds P (inside _) = refl
has-holds P (unlocking _) = refl
has-holds P (releasing _) = refl

count-holding : (P : Str) (vs : List Thread) → count_if (has P) (holding vs) ≡ count_if (holds P) vs
count-holding P [] = refl
count-holding P (v ∷ vs) = ground (arith, has-holds P v, count-holding P vs)

-- What a step of one goroutine is to the users: nothing, a project locked, or one unlocked.
abbrev Shows : ProjectQueue → Option Str → Option Str → Type 0
Shows q x y =
    (x ≡ y)
    ⊎ (((P : Str) × ((x ≡ none) × ((y ≡ some P) × (locked_for P q ≡ false))))
        ⊎ ((P : Str) × ((x ≡ some P) × (y ≡ none))))

abbrev ShowsBy : ProjectQueue → Thread → Turn → Type 0
ShowsBy q v blocks = Unit
ShowsBy q v (goes w r) = Shows q (held_by v) (held_by w)
ShowsBy q v panics = Unit

find-shows : (q : ProjectQueue) (x : Str) (m : Option ℕ) → ShowsBy q (looking x) (find_mutex x q m)
unfolding find_mutex
find-shows q x none = inl refl
find-shows q x (some m) = inl refl

release-shows :
    (q : ProjectQueue) (x : Str) (m : Option ℕ) → ShowsBy q (releasing x) (release x q m)
unfolding release
release-shows q x none = tt
release-shows q x (some m) =
    elim (q.locked m)
      as (λ b. ShowsBy q (releasing x) (elim b [
        | true ↦ goes outside (record (set_locked m false q) { mu = false })
        | false ↦ panics
      ])) [ true ↦ inr (inr (x, (refl, refl))) | false ↦ tt ]

turn-shows : (q : ProjectQueue) (v : Thread) → WaitsFor q v → ShowsBy q v (turn v q)
unfolding turn
turn-shows q outside h = tt
turn-shows q (inside x) h = tt
turn-shows q (looking x) h = find-shows q x (lookup x q.p)
turn-shows q (releasing x) h = release-shows q x (lookup x q.p)
turn-shows q (locking x) h = elim (Bool-cases q.mu) [
  | inl e ↦ subst (ShowsBy q (locking x)) {x = blocks} (ground (arith, e)) tt
  | inr e ↦
      subst (ShowsBy q (locking x)) {x = goes (looking x) (record q { mu = true })}
        (ground (arith, e)) (inl refl)
]
turn-shows q (unlocking x) h = elim (Bool-cases q.mu) [
  | inl e ↦ subst (ShowsBy q (unlocking x)) {x = blocks} (ground (arith, e)) tt
  | inr e ↦
      subst (ShowsBy q (unlocking x)) {x = goes (releasing x) (record q { mu = true })}
        (ground (arith, e)) (inl refl)
]
turn-shows q (waiting x m) h = elim (Bool-cases (q.locked m)) [
  | inl e ↦ subst (ShowsBy q (waiting x m)) {x = blocks} (ground (arith, e)) tt
  | inr e ↦
      subst (ShowsBy q (waiting x m)) {x = goes (inside x) (set_locked m true q)}
        (ground (arith, e)) (inr (inl (x, (refl, (refl, ap (locked_at q) h ∙ e)))))
]

-- The users see nothing of the step, or one step of the locks.
pub Simulates : List Thread → List Thread → Type 0
Simulates vs ws = (holding vs ≡ holding ws) ⊎ LockStep (holding vs) (holding ws)

holding-split :
    (before after : List Thread) (v : Thread) (o : Option Str)
    → held_by v ≡ o
    → holding (before ++ (v ∷ after)) ≡ holding before ++ (o ∷ holding after)
holding-split before after v o h =
    holding-append before (v ∷ after) ∙ ap (λ x. holding before ++ (x ∷ holding after)) h

-- A step of one goroutine among the others.
Shows-Simulates :
    (s : System) (before after : List Thread) (v w : Thread)
    → IsSound s
    → s.threads ≡ before ++ (v ∷ after)
    → Shows s.queue (held_by v) (held_by w)
    → Simulates s.threads (before ++ (w ∷ after))
unfolding Simulates
Shows-Simulates s before after v w h e (inl k) = inl (
    ap holding e
    ∙ holding-split before after v (held_by w) k
    ∙ sym (holding-split before after w (held_by w) refl))
Shows-Simulates s before after v w h e (inr (inl (P, (a, (b, c))))) = inr (
    subst (LockStep (holding s.threads)) (sym (holding-split before after w (some P) b)) (
      acquires (holding s.threads) (holding before) (holding after) P
        (ap holding e ∙ holding-split before after v none a)
        (ground (arith, count-holding P s.threads, h.owned P, c))))
Shows-Simulates s before after v w h e (inr (inr (P, (a, b)))) = inr (
    subst (LockStep (holding s.threads)) (sym (holding-split before after w none b)) (
      releases (holding s.threads) (holding before) (holding after) P
        (ap holding e ∙ holding-split before after v (some P) a)))

Step-Simulates : (s t : System) → IsSound s → Step s t → Simulates s.threads t.threads
Step-Simulates _ _ h (calls_lock s before after x e) =
    Shows-Simulates s before after outside (locking x) h e (inl refl)
Step-Simulates _ _ h (calls_unlock s before after x e) =
    Shows-Simulates s before after (inside x) (unlocking x) h e (inl refl)
Step-Simulates _ _ h (runs s before after v w q e k) = Shows-Simulates s before after v w h e (
    subst (ShowsBy s.queue v) k (
      turn-shows s.queue v
        (All-split (WaitsFor s.queue) before after v
          (subst (All (WaitsFor s.queue)) e h.waits)).1.0))

-- In every state that is reached from the start, a step of a goroutine shows its users either
-- nothing or one step of a lock for each project: one that had no project has locked one that none
-- had locked, or one has unlocked the project that it had.
pub project_lock_refines :
    (n : ℕ) (s t : System) → Reach (start_system n) s → Step s t → Simulates s.threads t.threads
project_lock_refines n s t r k = Step-Simulates s t (Reach-IsSound n s r) k

-- ===== src/ProjectQueue.antt =====
-- cmd/mistryd/project_queue.go: one mutex for each project, as goroutines use it.
pub mod Invariant
pub mod Moves
pub mod Keeping
pub mod Exclusion
pub mod Refinement
use mistry.Base.{
  ℕ, zero, suc, ◌≡◌, Bool, true, false, Option, none, some, List, [], ◌∷◌, ◌++◌, ◌==◌, nat_eq,
  list_eq, if◌then◌else◌,
}
use mistry.Base.Dict.{Dict, lookup, insert}
use mistry.Base.Text.{Str}

-- `q`, and the mutexes that were made, by number; `made` is the number of the next one.
pub record ProjectQueue : Type 0 where
  pub mu : Bool
  pub p : Dict Str ℕ
  pub locked : ℕ → Bool
  pub made : ℕ

abbrev pub new_project_queue : ProjectQueue
new_project_queue = record { mu = false; p = []; locked = λ m. false; made = 0 }

-- Where a goroutine is: in `Lock` before `q.mu.Lock()`, behind it, and before `plock.Lock()`;
-- between `Lock` and `Unlock`; in `Unlock` before `q.mu.Lock()` and behind it; or in none of these.
pub data Thread : Type 0 where
  outside : Thread
  locking : Str → Thread
  looking : Str → Thread
  waiting : Str → ℕ → Thread
  inside : Str → Thread
  unlocking : Str → Thread
  releasing : Str → Thread

-- What the next statement does: it blocks, goes on, or panics.
pub data Turn : Type 0 where
  blocks : Turn
  goes : Thread → ProjectQueue → Turn
  panics : Turn

abbrev pub set_locked : ℕ → Bool → ProjectQueue → ProjectQueue
set_locked m b q = record q { locked = λ x. if x == m then b else q.locked x }

-- `plock, ok := q.p[project]`, with a new mutex where there is none, and `q.mu.Unlock()`.
unfoldable pub find_mutex : Str → ProjectQueue → Option ℕ → Turn
find_mutex project q (some m) = goes (waiting project m) (record q { mu = false })
find_mutex project q none = goes (waiting project q.made) (record (set_locked q.made false q) {
  mu = false;
  p = insert project q.made q.p;
  made = suc q.made;
})

-- `q.p[project].Unlock()` and `q.mu.Unlock()`: the first panics at a nil or an unlocked mutex.
unfoldable pub release : Str → ProjectQueue → Option ℕ → Turn
release project q none = panics
release project q (some m) = elim (q.locked m) [
  | true ↦ goes outside (record (set_locked m false q) { mu = false })
  | false ↦ panics
]

-- The next statement of a goroutine in `Lock` or `Unlock`.
unfoldable pub turn : Thread → ProjectQueue → Turn
unfolding find_mutex release
turn outside q = blocks
turn (inside project) q = blocks
turn (locking project) q = elim q.mu [
  | true ↦ blocks
  | false ↦ goes (looking project) (record q { mu = true })
]
turn (looking project) q = find_mutex project q (lookup project q.p)
turn (waiting project m) q = elim (q.locked m) [
  | true ↦ blocks
  | false ↦ goes (inside project) (set_locked m true q)
]
turn (unlocking project) q = elim q.mu [
  | true ↦ blocks
  | false ↦ goes (releasing project) (record q { mu = true })
]
turn (releasing project) q = release project q (lookup project q.p)

pub record System : Type 0 where
  pub queue : ProjectQueue
  pub threads : List Thread

abbrev pub idle_threads : ℕ → List Thread
idle_threads zero = []
idle_threads (suc n) = outside ∷ idle_threads n

abbrev pub start_system : ℕ → System
start_system n = record { queue = new_project_queue; threads = idle_threads n }

-- A goroutine calls `Lock`, or `Unlock` for the project that it has locked, or makes its next step.
pub data Step : System → System → Type 0 where
  calls_lock :
      (s : System) (before after : List Thread) (project : Str)
      → s.threads ≡ before ++ (outside ∷ after)
      → Step s (record s { threads = before ++ (locking project ∷ after) })
  calls_unlock :
      (s : System) (before after : List Thread) (project : Str)
      → s.threads ≡ before ++ (inside project ∷ after)
      → Step s (record s { threads = before ++ (unlocking project ∷ after) })
  runs :
      (s : System) (before after : List Thread) (v w : Thread) (q : ProjectQueue)
      → s.threads ≡ before ++ (v ∷ after)
      → turn v s.queue ≡ goes w q
      → Step s (record { queue = q; threads = before ++ (w ∷ after) })

pub data Reach (s : System) : System → Type 0 where
  here : Reach s s
  next : {t u : System} → Reach s t → Step t u → Reach s u

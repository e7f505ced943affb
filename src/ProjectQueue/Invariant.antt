-- ===== src/ProjectQueue/Invariant.antt =====
-- What holds of the project queue (cmd/mistryd/project_queue.go) in each state that its users reach.
use mistry.Base.{
  ℕ, zero, suc, ◌+◌, ◌<◌, ◌≡◌, refl, Bool, true, false, Option, none, some, List, [], ◌∷◌, ◌++◌,
  arith, count_if, bit, count_if-replace, All-replace, All, ◌==◌, nat_eq, list_eq,
}
use mistry.Base.Dict.{lookup}
use mistry.Base.Text.{Str}
use mathlib.Core.Path.{subst}
use mistry.ProjectQueue.{
  ProjectQueue, new_project_queue, Thread, outside, locking, looking, waiting, inside, unlocking,
  releasing, System, idle_threads, start_system,
}

abbrev pub has_mu : Thread → Bool
has_mu outside = false
has_mu (locking _) = false
has_mu (looking _) = true
has_mu (waiting _ _) = false
has_mu (inside _) = false
has_mu (unlocking _) = false
has_mu (releasing _) = true

-- The goroutine has locked the project, and has not yet unlocked it.
abbrev pub holds : Str → Thread → Bool
holds project outside = false
holds project (locking _) = false
holds project (looking _) = false
holds project (waiting _ _) = false
holds project (inside x) = x == project
holds project (unlocking x) = x == project
holds project (releasing x) = x == project

abbrev pub locked_at : ProjectQueue → Option ℕ → Bool
locked_at q none = false
locked_at q (some m) = q.locked m

-- The mutex of a project is locked.
abbrev pub locked_for : Str → ProjectQueue → Bool
locked_for project q = locked_at q (lookup project q.p)

-- A goroutine waits for the mutex that the map has for its project.
abbrev pub WaitsFor : ProjectQueue → Thread → Type 0
WaitsFor q outside = Unit
WaitsFor q (locking _) = Unit
WaitsFor q (looking _) = Unit
WaitsFor q (waiting project m) = lookup project q.p ≡ some m
WaitsFor q (inside _) = Unit
WaitsFor q (unlocking _) = Unit
WaitsFor q (releasing _) = Unit

-- Two projects have two mutexes, and each was made.
pub record IsTable (q : ProjectQueue) : Type 0 where
  pub apart : (x y : Str) (m : ℕ) → lookup x q.p ≡ some m → lookup y q.p ≡ some m → x ≡ y
  pub below : (x : Str) (m : ℕ) → lookup x q.p ≡ some m → m < q.made

pub record IsSound (s : System) : Type 0 where
  pub guarded : count_if has_mu s.threads ≡ bit s.queue.mu
  pub owned :
      (project : Str) → count_if (holds project) s.threads ≡ bit (locked_for project s.queue)
  pub table : IsTable s.queue
  pub waits : All (WaitsFor s.queue) s.threads

idle-count : (f : Thread → Bool) (n : ℕ) → f outside ≡ false → count_if f (idle_threads n) ≡ 0
idle-count f zero h = refl
idle-count f (suc n) h = ground (arith, idle-count f n h)

idle-waits : (q : ProjectQueue) (n : ℕ) → All (WaitsFor q) (idle_threads n)
idle-waits q zero = tt
idle-waits q (suc n) = (tt, idle-waits q n)

pub start-IsSound : (n : ℕ) → IsSound (start_system n)
unfolding lookup
start-IsSound n = record {
  guarded = idle-count has_mu n refl;
  owned = λ project. idle-count (holds project) n refl;
  table = record { apart = λ x y m h k. absurd cc; below = λ x m h. absurd cc };
  waits = idle-waits new_project_queue n;
}

WaitsFor-grow :
    (q r : ProjectQueue) (v : Thread)
    → ((x : Str) (m : ℕ) → lookup x q.p ≡ some m → lookup x r.p ≡ some m)
    → WaitsFor q v
    → WaitsFor r v
WaitsFor-grow q r outside g h = tt
WaitsFor-grow q r (locking _) g h = tt
WaitsFor-grow q r (looking _) g h = tt
WaitsFor-grow q r (waiting x m) g h = g x m h
WaitsFor-grow q r (inside _) g h = tt
WaitsFor-grow q r (unlocking _) g h = tt
WaitsFor-grow q r (releasing _) g h = tt

All-grow :
    (q r : ProjectQueue) (vs : List Thread)
    → ((x : Str) (m : ℕ) → lookup x q.p ≡ some m → lookup x r.p ≡ some m)
    → All (WaitsFor q) vs
    → All (WaitsFor r) vs
All-grow q r [] g h = tt
All-grow q r (v ∷ vs) g h = (WaitsFor-grow q r v g h.0, All-grow q r vs g h.1)

-- What the next state of one goroutine and of the queue must satisfy.
pub record IsMove (q : ProjectQueue) (v : Thread) (r : ProjectQueue) (w : Thread) : Type 0 where
  pub guard : bit r.mu + bit (has_mu v) ≡ bit q.mu + bit (has_mu w)
  pub owner :
      (project : Str)
      → bit (locked_for project r) + bit (holds project v)
        ≡ bit (locked_for project q) + bit (holds project w)
  pub tabled : IsTable r
  pub grows : (x : Str) (m : ℕ) → lookup x q.p ≡ some m → lookup x r.p ≡ some m
  pub waited : WaitsFor r w

pub move-IsSound :
    (s : System) (before after : List Thread) (v w : Thread) (r : ProjectQueue)
    → IsSound s
    → s.threads ≡ before ++ (v ∷ after)
    → IsMove s.queue v r w
    → IsSound (record { queue = r; threads = before ++ (w ∷ after) })
move-IsSound s before after v w r h e mv = record {
  guarded =
      omega (arith, count_if-replace has_mu s.threads before after v w e, h.guarded, mv.guard);
  owned = λ project. omega (
    arith,
    count_if-replace (holds project) s.threads before after v w e,
    h.owned project,
    mv.owner project,
  );
  table = mv.tabled;
  waits = All-replace (WaitsFor r) before after v w mv.waited (
      All-grow s.queue r (before ++ (v ∷ after)) mv.grows
        (subst (All (WaitsFor s.queue)) e h.waits));
}

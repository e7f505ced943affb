-- ===== src/ProjectQueue/Keeping.antt =====
-- What every state that the users of the project queue (cmd/mistryd/project_queue.go) reach has.
use mistry.Base.{
  ℕ, ◌≡◌, refl, inl, inr, Bool, true, List, ◌∷◌, ◌++◌, arith, count_if, count_if-append, bit,
  All-split, All, Bool-cases, nat_eq, list_eq,
}
use mathlib.Core.Path.{subst, ap}
use mistry.ProjectQueue.{
  Thread, outside, locking, inside, unlocking, turn, System, start_system, Step, calls_lock,
  calls_unlock, runs, Reach, here, next,
}
use mistry.ProjectQueue.Invariant.{
  has_mu, holds, locked_for, WaitsFor, IsSound, move-IsSound, start-IsSound,
}
use mistry.ProjectQueue.Moves.{MovesBy, turn-IsMove, mu-IsMove}

module _ (s : System) (h : IsSound s) where
  -- What one goroutine in a sound state has.
  pub counted-holder :
      (f : Thread → Bool) (b : Bool) (before after : List Thread) (v : Thread)
      → count_if f s.threads ≡ bit b
      → s.threads ≡ before ++ (v ∷ after)
      → f v ≡ true
      → b ≡ true
  counted-holder f b before after v c e k = elim (Bool-cases b) [
    | inl n ↦ n
    | inr n ↦
        absurd (ground (arith, c, n, k, ap (count_if f) e, count_if-append f before (v ∷ after)))
  ]

  -- The next statement of any goroutine keeps the invariant, and does not panic.
  pub turn-moves :
      (before after : List Thread) (v : Thread)
      → s.threads ≡ before ++ (v ∷ after)
      → MovesBy s.queue v (turn v s.queue)
  turn-moves before after v e =
      turn-IsMove s.queue h.table v (counted-holder has_mu s.queue.mu before after v h.guarded e)
        (λ P. counted-holder (holds P) (locked_for P s.queue) before after v (h.owned P) e)
        (All-split (WaitsFor s.queue) before after v (subst (All (WaitsFor s.queue)) e h.waits)).1.0

pub Step-IsSound : (s t : System) → IsSound s → Step s t → IsSound t
Step-IsSound _ _ h (calls_lock s before after x e) =
    move-IsSound s before after outside (locking x) s.queue h e
      (mu-IsMove s.queue h.table s.queue.mu outside (locking x) refl (λ P. refl) tt)
Step-IsSound _ _ h (calls_unlock s before after x e) =
    move-IsSound s before after (inside x) (unlocking x) s.queue h e
      (mu-IsMove s.queue h.table s.queue.mu (inside x) (unlocking x) refl (λ P. refl) tt)
Step-IsSound _ _ h (runs s before after v w q e k) =
    move-IsSound s before after v w q h e
      (subst (MovesBy s.queue v) k (turn-moves s h before after v e))

pub Reach-IsSound : (n : ℕ) (s : System) → Reach (start_system n) s → IsSound s
Reach-IsSound n s here = start-IsSound n
Reach-IsSound n s (next {t} r k) = Step-IsSound t s (Reach-IsSound n t r) k

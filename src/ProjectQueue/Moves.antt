-- ===== src/ProjectQueue/Moves.antt =====
-- Every step of a user of the project queue (cmd/mistryd/project_queue.go) keeps its invariant.
use mistry.Base.{
  ℕ, suc, ◌+◌, ◌≡◌, refl, inl, inr, Bool, true, false, none, some, arith, Option-cases, bit,
  Bool-cases, ◌==◌, nat_eq, list_eq, if◌then◌else◌, list_beq_iff,
}
use mistry.Base.Dict.{lookup, insert, lookup-insert}
use mistry.Base.Text.{Str}
use mathlib.Core.Path.{subst, sym, ap, ◌∙◌}
use mistry.ProjectQueue.{
  ProjectQueue, Thread, outside, locking, looking, waiting, inside, unlocking, releasing, Turn,
  blocks, goes, panics, set_locked, find_mutex, release, turn,
}
use mistry.ProjectQueue.Invariant.{has_mu, holds, locked_at, locked_for, WaitsFor, IsTable, IsMove}

-- What a statement that does not block leads to; none of them panics.
abbrev pub MovesBy : ProjectQueue → Thread → Turn → Type 0
MovesBy q v blocks = Unit
MovesBy q v (goes w r) = IsMove q v r w
MovesBy q v panics = ⊥

module _ (q : ProjectQueue) (t : IsTable q) where
  same-IsTable : (b : Bool) (locked : ℕ → Bool) → IsTable (record q { mu = b; locked = locked })
  same-IsTable b locked = record { apart = t.apart; below = t.below }

  -- A step that leaves the mutexes of the projects as they are.
  pub mu-IsMove :
      (b : Bool) (v w : Thread)
      → bit b + bit (has_mu v) ≡ bit q.mu + bit (has_mu w)
      → ((P : Str) → holds P v ≡ holds P w)
      → WaitsFor (record q { mu = b }) w
      → IsMove q v (record q { mu = b }) w
  mu-IsMove b v w g o wt = record {
    guard = g;
    owner = λ P. ap (λ x. bit (locked_for P q) + bit x) (o P);
    tabled = same-IsTable b q.locked;
    grows = λ x m h. h;
    waited = wt;
  }

  turn-locking : (x : Str) → MovesBy q (locking x) (turn (locking x) q)
  unfolding turn
  turn-locking x = elim (Bool-cases q.mu) [
    | inl e ↦ subst (MovesBy q (locking x)) {x = blocks} (ground (arith, e)) tt
    | inr e ↦
        subst (MovesBy q (locking x)) {x = goes (looking x) (record q { mu = true })}
          (ground (arith, e))
          (mu-IsMove true (locking x) (looking x) (ground (arith, e)) (λ P. refl) tt)
  ]

  turn-unlocking : (x : Str) → MovesBy q (unlocking x) (turn (unlocking x) q)
  unfolding turn
  turn-unlocking x = elim (Bool-cases q.mu) [
    | inl e ↦ subst (MovesBy q (unlocking x)) {x = blocks} (ground (arith, e)) tt
    | inr e ↦
        subst (MovesBy q (unlocking x)) {x = goes (releasing x) (record q { mu = true })}
          (ground (arith, e))
          (mu-IsMove true (unlocking x) (releasing x) (ground (arith, e)) (λ P. refl) tt)
  ]

  -- The lock of the project that has mutex `m`, and of no other, is written.
  locked-set :
      (x : Str) (m : ℕ) (b c : Bool)
      → lookup x q.p ≡ some m
      → (P : Str)
      → locked_for P (record (set_locked m b q) { mu = c }) ≡ (if x == P then b else locked_for P q)
  locked-set x m b c h P = elim (Option-cases (lookup P q.p)) [
    | inl e ↦ ground (arith, list_beq_iff x P, e, h)
    | inr (k, e) ↦ ground (arith, list_beq_iff x P, e, h, t.apart x P m h)
  ]

  locked-here :
      (x : Str) (m : ℕ)
      → lookup x q.p ≡ some m
      → (P : Str) → (x == P) ≡ true
      → locked_for P q ≡ q.locked m
  locked-here x m h P e =
      ap (locked_at q) (ap (λ y. lookup y q.p) (sym ((list_beq_iff x P).0 e)) ∙ h)

  turn-waiting :
      (x : Str) (m : ℕ) → lookup x q.p ≡ some m → MovesBy q (waiting x m) (turn (waiting x m) q)
  unfolding turn
  turn-waiting x m h = elim (Bool-cases (q.locked m)) [
    | inl e ↦ subst (MovesBy q (waiting x m)) {x = blocks} (ground (arith, e)) tt
    | inr e ↦
        subst (MovesBy q (waiting x m)) {x = goes (inside x) (set_locked m true q)}
          (ground (arith, e))
          (record {
            guard = refl;
            owner = λ P.
                ground (
                  arith,
                  locked-set x m true q.mu h P,
                  locked-here x m h P,
                  e,
                  Bool-cases (x == P),
                );
            tabled = same-IsTable q.mu (set_locked m true q).locked;
            grows = λ y n k. k;
            waited = tt;
          })
  ]

  turn-releasing :
      (x : Str)
      → locked_for x q ≡ true
      → q.mu ≡ true
      → MovesBy q (releasing x) (turn (releasing x) q)
  unfolding turn release
  turn-releasing x h mu = elim (Option-cases (lookup x q.p)) [
    | inl e ↦ absurd (ground (arith, h, e))
    | inr (m, e) ↦
        subst (MovesBy q (releasing x))
          {x = goes outside (record (set_locked m false q) { mu = false })} (ground (arith, e, h))
          (record {
            guard = ground (arith, mu);
            owner = λ P. ground (
              arith,
              locked-set x m false false e P,
              locked-here x m e P,
              ap (locked_at q) e,
              h,
              Bool-cases (x == P),
            );
            tabled = same-IsTable false (set_locked m false q).locked;
            grows = λ y n k. k;
            waited = tt;
          })
  ]

  -- The queue with a new mutex for the project.
  abbrev with_mutex : Str → ProjectQueue
  with_mutex x = record (set_locked q.made false q) {
    mu = false;
    p = insert x q.made q.p;
    made = suc q.made;
  }

  module _ (x : Str) (e : lookup x q.p ≡ none) where
    with_mutex-IsTable : IsTable (with_mutex x)
    with_mutex-IsTable = record {
      apart = λ y z m h k. ground (
        arith,
        lookup-insert y x q.made q.p,
        lookup-insert z x q.made q.p,
        list_beq_iff y x,
        list_beq_iff z x,
        t.apart y z m,
        t.below y m,
        t.below z m,
      );
      below = λ y m h. ground (arith, lookup-insert y x q.made q.p, t.below y m);
    }

    with_mutex-grows :
        (y : Str) (m : ℕ) → lookup y q.p ≡ some m → lookup y (with_mutex x).p ≡ some m
    with_mutex-grows y m h = ground (arith, lookup-insert y x q.made q.p, list_beq_iff y x, e)

    -- A new mutex is not locked, and the others are as they were.
    with_mutex-locked : (P : Str) → locked_for P (with_mutex x) ≡ locked_for P q
    with_mutex-locked P = elim (Option-cases (lookup P q.p)) [
      | inl n ↦ ground (arith, lookup-insert P x q.made q.p, n)
      | inr (m, n) ↦
          ground (arith, lookup-insert P x q.made q.p, list_beq_iff P x, n, e, t.below P m n)
    ]

  turn-looking : (x : Str) → q.mu ≡ true → MovesBy q (looking x) (turn (looking x) q)
  unfolding turn find_mutex
  turn-looking x mu = elim (Option-cases (lookup x q.p)) [
    | inl e ↦
        subst (MovesBy q (looking x)) {x = goes (waiting x q.made) (with_mutex x)}
          (ground (arith, e))
          (record {
            guard = ground (arith, mu);
            owner = λ P. ap (λ b. bit b + 0) (with_mutex-locked x e P);
            tabled = with_mutex-IsTable x e;
            grows = with_mutex-grows x e;
            waited = ground (arith, lookup-insert x x q.made q.p, list_beq_iff x x);
          })
    | inr (m, e) ↦
        subst (MovesBy q (looking x)) {x = goes (waiting x m) (record q { mu = false })}
          (ground (arith, e))
          (mu-IsMove false (looking x) (waiting x m) (ground (arith, mu)) (λ P. refl) e)
  ]

  -- Where the goroutine has the mutex of the map, or of its project, that mutex is locked.
  pub turn-IsMove :
      (v : Thread)
      → (has_mu v ≡ true → q.mu ≡ true)
      → ((P : Str) → holds P v ≡ true → locked_for P q ≡ true)
      → WaitsFor q v
      → MovesBy q v (turn v q)
  unfolding turn
  turn-IsMove outside g o w = tt
  turn-IsMove (locking x) g o w = turn-locking x
  turn-IsMove (looking x) g o w = turn-looking x (g refl)
  turn-IsMove (waiting x m) g o w = turn-waiting x m w
  turn-IsMove (inside x) g o w = tt
  turn-IsMove (unlocking x) g o w = turn-unlocking x
  turn-IsMove (releasing x) g o w = turn-releasing x (o x ((list_beq_iff x x).1 refl)) (g refl)

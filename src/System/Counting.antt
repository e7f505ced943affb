-- ===== src/System/Counting.antt =====
-- How many calls of a kind a run makes, followed through the code.
use mistry.Base.{
  ℕ, ◌+◌, ◌≤◌, ◌≡◌, Bool, true, false, List, [], ◌∷◌, arith, count_if, count_if-append, bit, nat_eq,
  list_eq, if◌then◌else◌,
}
use mistry.Types.{GoError, Result, ok, err, BuildInfo}
use mathlib.Core.Path.{subst}
use mistry.Files.{Op}
use mistry.System.{
  Env, State, Call, T, ◌>>=◌, ◌>>◌, pure, throw, try, map_error, update_info, record_call, when,
  for_each, syscall, external, bind_result,
}

-- `m` makes at most `n` calls that satisfy `f`, whatever it returns.
pub record Adds {A : Type 0} (f : Call → Bool) (n : ℕ) (m : T A) : Type 0 where
  pub least : (s : State) → count_if f s.calls ≤ count_if f (m s).1.calls
  pub most : (s : State) → count_if f (m s).1.calls ≤ count_if f s.calls + n

module _ {A B : Type 0} (f : Call → Bool) where
  -- After a first part that makes none.
  result_least :
      (n : ℕ) (k : A → T B) (r : Result A) (s : State)
      → ((a : A) → Adds f n (k a))
      → count_if f s.calls ≤ count_if f (bind_result k (r, s)).1.calls
  result_least n k (ok a) s h = (h a).least s
  result_least n k (err e) s h = omega arith

  result_most :
      (n : ℕ) (k : A → T B) (r : Result A) (s : State)
      → ((a : A) → Adds f n (k a))
      → count_if f (bind_result k (r, s)).1.calls ≤ count_if f s.calls + n
  result_most n k (ok a) s h = (h a).most s
  result_most n k (err e) s h = omega arith

  pub bind_adds :
      (n l : ℕ) (m : T A) (k : A → T B)
      → Adds f n m
      → ((a : A) → Adds f l (k a))
      → Adds f (n + l) (m >>= k)
  bind_adds n l m k h g = record {
    least = λ s. omega (arith, h.least s, result_least l k (m s).0 (m s).1 g);
    most = λ s. omega (arith, h.most s, result_most l k (m s).0 (m s).1 g);
  }

  pub Adds-bind :
      (n : ℕ) (m : T A) (k : A → T B) → Adds f 0 m → ((a : A) → Adds f n (k a)) → Adds f n (m >>= k)
  Adds-bind n m k h g = subst (λ l. Adds f l (m >>= k)) (omega arith) (bind_adds 0 n m k h g)

  pub Adds-bind_last :
      (n : ℕ) (m : T A) (k : A → T B) → Adds f n m → ((a : A) → Adds f 0 (k a)) → Adds f n (m >>= k)
  Adds-bind_last n m k h g = subst (λ l. Adds f l (m >>= k)) (omega arith) (bind_adds n 0 m k h g)

module _ {B : Type 0} (f : Call → Bool) where
  pub Adds-seq : (n : ℕ) (m : T (Unit {0})) (k : T B) → Adds f 0 m → Adds f n k → Adds f n (m >> k)
  Adds-seq n m k h g = Adds-bind f n m (λ _. k) h (λ _. g)

  pub Adds-seq_last :
      (n : ℕ) (m : T (Unit {0})) (k : T B) → Adds f n m → Adds f 0 k → Adds f n (m >> k)
  Adds-seq_last n m k h g = Adds-bind_last f n m (λ _. k) h (λ _. g)

module _ {A : Type 0} (f : Call → Bool) (n : ℕ) where
  pub Adds-pure : (a : A) → Adds f n (pure a)
  Adds-pure a = record { least = λ s. omega arith; most = λ s. omega arith }

  pub Adds-throw : (e : GoError) → Adds {A = A} f n (throw e)
  Adds-throw e = record { least = λ s. omega arith; most = λ s. omega arith }

  pub Adds-try : (m : T A) → Adds f n m → Adds f n (try m)
  Adds-try m h = record { least = h.least; most = h.most }

  pub Adds-map_error : (g : GoError → GoError) (m : T A) → Adds f n m → Adds f n (map_error g m)
  Adds-map_error g m h = record { least = h.least; most = h.most }

  -- Code that returns a value of the state.
  pub Adds-return : (g : State → Result A) → Adds f n (λ s. (g s, s))
  Adds-return g = record { least = λ s. omega arith; most = λ s. omega arith }

  pub Adds-syscall : (env : Env) (op : Op A) → Adds f n (syscall env op)
  unfolding syscall
  Adds-syscall env op = record { least = λ s. ground arith; most = λ s. ground arith }

  pub Adds-external : (env : Env) (c : Call) (g : ℕ → A) → f c ≡ false → Adds f n (external env c g)
  unfolding external
  Adds-external env c g h = record {
    least = λ s. ground (arith, count_if-append f s.calls (c ∷ []));
    most = λ s. ground (arith, h, count_if-append f s.calls (c ∷ []));
  }

module _ (f : Call → Bool) (n : ℕ) where
  pub Adds-update_info : (g : BuildInfo → BuildInfo) → Adds f n (update_info g)
  Adds-update_info g = record { least = λ s. omega arith; most = λ s. omega arith }

  pub Adds-record_call : (c : Call) → bit (f c) ≤ n → Adds f n (record_call c)
  Adds-record_call c h = record {
    least = λ s. ground (arith, count_if-append f s.calls (c ∷ []));
    most = λ s. ground (arith, h, count_if-append f s.calls (c ∷ []));
  }

  pub Adds-when : (b : Bool) (m : T (Unit {0})) → Adds f n m → Adds f n (when b m)
  Adds-when true m h = h
  Adds-when false m h = Adds-pure f n tt

module _ (f : Call → Bool) where
  pub Adds-for_each :
      {A : Type 0} (xs : List A) (k : A → T (Unit {0}))
      → ((a : A) → Adds f 0 (k a))
      → Adds f 0 (for_each xs k)
  unfolding for_each
  Adds-for_each [] k h = Adds-pure f 0 tt
  Adds-for_each (a ∷ xs) k h = Adds-seq f 0 (k a) _ (h a) (Adds-for_each xs k h)

module _ {A B : Type 0} (f : Call → Bool) (n : ℕ) where
  pub Adds-elim :
      (g : A → T B) (k : GoError → T B) (r : Result A)
      → ((a : A) → Adds f n (g a))
      → ((e : GoError) → Adds f n (k e))
      → Adds f n (elim r [ ok a ↦ g a | err e ↦ k e ])
  Adds-elim g k (ok a) h l = h a
  Adds-elim g k (err e) h l = l e

module _ {B : Type 0} (f : Call → Bool) (n : ℕ) where
  pub Adds-if : (b : Bool) (m k : T B) → Adds f n m → Adds f n k → Adds f n (if b then m else k)
  Adds-if true m k h l = h
  Adds-if false m k h l = l

pub ruleset adds_rules = (
  Adds-elim, Adds-if, Adds-bind, Adds-seq, Adds-pure, Adds-throw, Adds-try, Adds-map_error,
  Adds-return, Adds-syscall, Adds-external, Adds-update_info, Adds-record_call, Adds-when,
  Adds-for_each,
)

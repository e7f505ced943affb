-- ===== src/System/Laws.antt =====
-- What a run leaves alone: a path whose node stays the same, followed through the code.
use mistry.Base.{◌≡◌, refl, ◌∙◌, Bool, true, false, List, [], ◌∷◌, arith, if◌then◌else◌, All}
use mistry.Types.{GoError, Result, ok, err, BuildInfo}
use mistry.Paths.{FilePath}
use mistry.Files.{Op}
use mistry.Files.Laws.{OpKeeps}
use mistry.System.{
  Env, State, Call, T, ◌>>=◌, ◌>>◌, pure, throw, try, map_error, update_info, record_call, when,
  for_each, syscall, external, bind_result,
}

-- The node at `x` is the same after `m`, whatever `m` returns.
pub record Keeps {A : Type 0} (x : FilePath) (m : T A) : Type 0 where
  pub at : (s : State) → (m s).1.files.node x ≡ s.files.node x

module _ {A B : Type 0} (x : FilePath) where
  bind_at :
      (f : A → T B) (r : Result A) (s : State)
      → ((a : A) → Keeps x (f a))
      → (bind_result f (r, s)).1.files.node x ≡ s.files.node x
  bind_at f (ok a) s h = (h a).at s
  bind_at f (err e) s h = refl

  pub Keeps-bind :
      (m : T A) (f : A → T B) → Keeps x m → ((a : A) → Keeps x (f a)) → Keeps x (m >>= f)
  Keeps-bind m f h k = record { at = λ s. bind_at f (m s).0 (m s).1 k ∙ h.at s }

module _ {A : Type 0} (x : FilePath) where
  pub Keeps-seq : (m : T (Unit {0})) (f : T A) → Keeps x m → Keeps x f → Keeps x (m >> f)
  Keeps-seq m f h k = Keeps-bind x m (λ _. f) h (λ _. k)

  pub Keeps-pure : (a : A) → Keeps x (pure a)
  Keeps-pure a = record { at = λ s. refl }

  pub Keeps-throw : (e : GoError) → Keeps {A = A} x (throw e)
  Keeps-throw e = record { at = λ s. refl }

  pub Keeps-try : (m : T A) → Keeps x m → Keeps x (try m)
  Keeps-try m h = record { at = h.at }

  pub Keeps-map_error : (g : GoError → GoError) (m : T A) → Keeps x m → Keeps x (map_error g m)
  Keeps-map_error g m h = record { at = h.at }

  -- Code that returns a value of the state and leaves the files.
  pub Keeps-return : (f : State → Result A) → Keeps x (λ s. (f s, s))
  Keeps-return f = record { at = λ s. refl }

  pub Keeps-syscall : (env : Env) (op : Op A) → OpKeeps x op → Keeps x (syscall env op)
  unfolding syscall
  Keeps-syscall env op h = record { at = λ s. ground (arith, h s.files) }

  pub Keeps-external :
      (env : Env) (c : Call) (f : Prim.Native.Nat.ℕ → A) → Keeps x (external env c f)
  unfolding external
  Keeps-external env c f = record { at = λ s. ground arith }

module _ (x : FilePath) where
  pub Keeps-update_info : (f : BuildInfo → BuildInfo) → Keeps x (update_info f)
  Keeps-update_info f = record { at = λ s. refl }

  pub Keeps-record_call : (c : Call) → Keeps x (record_call c)
  Keeps-record_call c = record { at = λ s. refl }

  pub Keeps-when : (b : Bool) (m : T (Unit {0})) → Keeps x m → Keeps x (when b m)
  Keeps-when true m h = h
  Keeps-when false m h = Keeps-pure x tt

  pub Keeps-for_each :
      {A : Type 0} (xs : List A) (f : A → T (Unit {0}))
      → ((a : A) → Keeps x (f a))
      → Keeps x (for_each xs f)
  unfolding for_each
  Keeps-for_each [] f h = Keeps-pure x tt
  Keeps-for_each (a ∷ xs) f h = Keeps-seq x (f a) _ (h a) (Keeps-for_each xs f h)

module _ {A : Type 0} (x : FilePath) where
  pub Keeps-for_each_All :
      (xs : List A) (f : A → T (Unit {0})) → All (λ a. Keeps x (f a)) xs → Keeps x (for_each xs f)
  unfolding for_each
  Keeps-for_each_All [] f h = Keeps-pure x tt
  Keeps-for_each_All (a ∷ xs) f h = Keeps-seq x (f a) _ h.0 (Keeps-for_each_All xs f h.1)

module _ {A B : Type 0} (x : FilePath) where
  -- A look at an error, and a test.
  pub Keeps-elim :
      (f : A → T B) (g : GoError → T B) (r : Result A)
      → ((a : A) → Keeps x (f a))
      → ((e : GoError) → Keeps x (g e))
      → Keeps x (elim r [ ok a ↦ f a | err e ↦ g e ])
  Keeps-elim f g (ok a) h k = h a
  Keeps-elim f g (err e) h k = k e

module _ {B : Type 0} (x : FilePath) where
  pub Keeps-if : (b : Bool) (m n : T B) → Keeps x m → Keeps x n → Keeps x (if b then m else n)
  Keeps-if true m n h k = h
  Keeps-if false m n h k = k

pub ruleset keeps_rules = (
  Keeps-elim, Keeps-if, Keeps-bind, Keeps-seq, Keeps-pure, Keeps-throw, Keeps-try, Keeps-map_error,
  Keeps-return, Keeps-syscall, Keeps-external, Keeps-update_info, Keeps-record_call, Keeps-when,
  Keeps-for_each,
)

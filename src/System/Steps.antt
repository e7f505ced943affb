-- ===== src/System/Steps.antt =====
-- Code that succeeded, taken apart: what each of its calls returned, and the state it left.
use mistry.Base.{◌≡◌, refl, ap, Option, none, some, arith, suc}
use mistry.Types.{GoError, Result, ok, err}
use mistry.Files.{Files, Op}
use mistry.System.{Env, State, T, ◌>>=◌, bind_result, map_error, syscall, syscall_at, Str}

abbrev after_call : State → Files → State
after_call s fs = record s { tick = suc s.tick; files = fs }

module _ {A : Type 0} where
  syscall_at_ok :
      (env : Env) (f : Option Str) (op : Op A) (s : State) (a : A)
      → (syscall_at env f op s).0 ≡ ok a
      → ((op s.files).0 ≡ ok a) × (syscall_at env f op s ≡ (ok a, after_call s (op s.files).1))
  syscall_at_ok env none op s a h = (h, ap (λ r. (r, after_call s (op s.files).1)) h)
  syscall_at_ok env (some m) op s a h = absurd (cc)

  -- A system call that succeeded did its operation.
  pub syscall_ok :
      (env : Env) (op : Op A) (s : State) (a : A)
      → (syscall env op s).0 ≡ ok a
      → ((op s.files).0 ≡ ok a) × (syscall env op s ≡ (ok a, after_call s (op s.files).1))
  unfolding syscall
  syscall_ok env op s a h = syscall_at_ok env (env.fault s.tick) op s a h

  pub map_error_ok :
      (g : GoError → GoError) (m : T A) (s : State) (a : A)
      → (map_error g m s).0 ≡ ok a
      → ((m s).0 ≡ ok a) × (map_error g m s ≡ m s)
  map_error_ok g m s a h = ground arith

module _ {A B : Type 0} where
  bind_result_ok :
      (f : A → T B) (r : Result A) (s : State) (b : B)
      → (bind_result f (r, s)).0 ≡ ok b
      → (a : A) × (r ≡ ok a) × (bind_result f (r, s) ≡ f a s) × ((f a s).0 ≡ ok b)
  bind_result_ok f (ok a) s b h = (a, refl, refl, h)
  bind_result_ok f (err e) s b h = absurd (cc)

  -- Of `m >>= f` that succeeded, both parts did.
  pub bind_ok :
      (m : T A) (f : A → T B) (s : State) (b : B)
      → ((m >>= f) s).0 ≡ ok b
      → (a : A) × ((m s).0 ≡ ok a) × ((m >>= f) s ≡ f a (m s).1) × ((f a (m s).1).0 ≡ ok b)
  bind_ok m f s b h = bind_result_ok f (m s).0 (m s).1 b h

  -- A call that failed ends `m >>= f`.
  pub bind_err :
      (m : T A) (f : A → T B) (s : State) (e : GoError)
      → (m s).0 ≡ err e
      → (m >>= f) s ≡ (err e, (m s).1)
  bind_err m f s e h = ground arith

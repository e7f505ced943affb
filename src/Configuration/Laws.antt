-- ===== src/Configuration/Laws.antt =====
-- What holds of a configuration that ParseConfig (cmd/mistryd/config.go) accepts.
use mistry.Base.{
  refl, ℕ, ◌<◌, ◌≡◌, ◌≢◌, true, [], ◌∷◌, arith, ◌==◌, nat_eq, list_eq, if◌then◌else◌, list_beq_iff,
}
use mistry.Base.Text.{Str}
use mistry.Types.{Result, ok, err}
use mistry.Base.Int.{ℤ, pos, double, int_eq, negsuc}
use mistry.Paths.{FilePath}
use mistry.Files.{is_dir, follow, stat}
use mistry.System.{Env, State, FileSystem, syscall}
use mathlib.Core.Path.{subst}
use mistry.System.Steps.{bind_ok}
use mistry.Configuration.{or_backlog, or_concurrency, or_uid, decoded, parse_config, checked}
use mistry.Utils.{path_is_dir}
use mistry.Job.{Config}
use mistry.Base.Int.{IsInt}
use mistry.Base.{◌⊎◌}
use mistry.Base.{Bool-cases}
use mistry.Base.Int.{min_int}
use mistry.Base.{inl}
use mistry.Base.{inr}

path_is_dir-ok :
    (env : Env) (p : FilePath) (s : State) (u : Unit {0})
    → (path_is_dir env p s).0 ≡ ok u
    → (is_dir (follow s.files p) ≡ true) × ((path_is_dir env p s).1.files ≡ s.files)
unfolding path_is_dir stat syscall
path_is_dir-ok env p s u h = ground arith

default-nonzero : (z : ℤ) (n : ℕ) → 0 < n → (if z == pos 0 then pos n else z) ≢ pos 0
default-nonzero z n h = ground (arith, int_eq.same_iff z (pos 0), h)

-- Twice an `int` other than 0 is 0 only where the product wraps around to it.
double-nonzero : (z : ℤ) → IsInt z → z ≢ pos 0 → (double z ≢ pos 0) ⊎ (z ≡ min_int)
unfolding double
double-nonzero (pos n) k h = ground arith
double-nonzero (negsuc n) k h = ground arith

backlog-nonzero :
    (b c : ℤ) → IsInt c → c ≢ pos 0 → ((if b == pos 0 then double c else b) ≢ pos 0) ⊎ (c ≡ min_int)
backlog-nonzero b c k h = ground (arith, int_eq.same_iff b (pos 0), double-nonzero c k h)

default-IsInt : (z : ℤ) (n : ℕ) → IsInt z → IsInt (pos n) → IsInt (if z == pos 0 then pos n else z)
default-IsInt z n h k = elim (Bool-cases (z == pos 0)) [ inl e ↦ rw e k | inr e ↦ rw e h ]

-- What the server can rely on.
pub record IsReady (s : State) (cfg : Config) : Type 0 where
  pub projects : is_dir (follow s.files cfg.projects_path) ≡ true
  pub builds : is_dir (follow s.files cfg.build_path) ≡ true
  pub workers : cfg.concurrency ≢ pos 0
  pub room : (cfg.backlog ≢ pos 0) ⊎ (cfg.concurrency ≡ min_int)
  pub owner : cfg.uid ≢ []

module _ (env : Env) (uid : Str) (cpus : ℕ) (decode : Config → Result Config) where
  or_uid-nonempty : (cfg : Config) → uid ≢ [] → (or_uid uid cfg).uid ≢ []
  or_uid-nonempty cfg h = ground (arith, list_beq_iff cfg.uid [], h)

  checked-IsReady :
      (c cfg : Config) (s : State)
      → 0 < cpus
      → IsInt (pos cpus)
      → IsInt c.concurrency
      → c.uid ≢ []
      → (checked env uid cpus decode c s).0 ≡ ok cfg
      → IsReady s cfg
  unfolding checked
  checked-IsReady c cfg s n m i o h =
      let first = bind_ok (path_is_dir env c.projects_path) _ s cfg h in
      let second =
        bind_ok (path_is_dir env c.build_path) _ (path_is_dir env c.projects_path s).1 cfg
          first.3 in
      let a = path_is_dir-ok env c.projects_path s first.0 first.1 in
      let b =
        path_is_dir-ok env c.build_path (path_is_dir env c.projects_path s).1 second.0 second.1 in
      let workers = default-nonzero c.concurrency cpus n in
      let same : or_backlog (or_concurrency cpus c) ≡ cfg = ground (arith, second.3) in
      subst (IsReady s) same (record {
        projects = a.0;
        builds = subst (λ fs. is_dir (follow fs c.build_path) ≡ true) a.1 b.0;
        workers = workers;
        room = backlog-nonzero c.backlog _ (default-IsInt c.concurrency cpus i m) workers;
        owner = o;
      })

  decoded-IsReady :
      (r : Result Config) (cfg : Config) (s : State)
      → 0 < cpus
      → IsInt (pos cpus)
      → ((c : Config) → r ≡ ok c → IsInt c.concurrency)
      → uid ≢ []
      → (decoded env uid cpus decode r s).0 ≡ ok cfg
      → IsReady s cfg
  unfolding decoded
  decoded-IsReady (err e) cfg s n m i o h = absurd cc
  decoded-IsReady (ok c) cfg s n m i o h =
      checked-IsReady (or_uid uid c) cfg s n m (i c refl) (or_uid-nonempty c o) h

  -- A configuration that ParseConfig returns, where an `int` has 64 bits and the decoding over a
  -- value with such a number of workers gives such a number, on a machine with at least one processor, and no more than an `int`
  -- holds, and for a user whose id has a text, names two directories, has a number of workers other
  -- than 0 and a user's id, and a backlog other than 0 unless the number of workers is the least
  -- `int`, where the default wraps around to 0; and the address was not empty.
  pub parse_config-IsReady :
      (addr : Str) (fs : FileSystem) (cfg : Config) (s : State)
      → 0 < cpus
      → IsInt (pos cpus)
      → ((d c : Config) → IsInt d.concurrency → decode d ≡ ok c → IsInt c.concurrency)
      → uid ≢ []
      → (parse_config env uid cpus decode addr fs s).0 ≡ ok cfg
      → IsReady s cfg × (addr ≢ [])
  unfolding parse_config
  parse_config-IsReady [] fs cfg s n m i o h = absurd cc
  parse_config-IsReady (x ∷ addr) fs cfg s n m i o h =
      (decoded-IsReady _ cfg s n m (λ c e. i _ c (omega arith) e) o h, ground arith)

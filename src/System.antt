-- ===== src/System.antt =====
-- A run of the program against its environment: a state, calls that may fail, and the calls as
-- they were made, in order. `Env` stands for the operating system's faults, docker, the clock and
-- the encodings that are not part of the program.
pub mod Laws
pub mod Steps
pub mod Counting
use mistry.Base.{ℕ, suc, Bool, true, false, Option, none, some, List, [], ◌∷◌, ◌++◌}
use mistry.Base.Text.{Str, codes}
use mistry.Base.Int.{ℤ}
use mistry.Types.{GoError, message, error_text, Result, ok, err, BuildInfo}
use mistry.Paths.{FilePath, render}
use mistry.Files.{Files, Node, Content, Op, mkdir, copy_tree, remove_all, stat}

-- Everything is a function of the number of calls made before.
pub record Env : Type 0 where
  -- The message with which the call fails, if it fails for a reason of the environment's.
  pub fault : ℕ → Option Str
  -- What the call prints, and the part of it that goes to stderr.
  pub output : ℕ → Str
  pub stderr : ℕ → Str
  -- The exit code of the container, the containers listed, the id of a new one, and what the container wrote below its
  -- data directory.
  pub exit_code : ℕ → ℤ
  pub containers : ℕ → List Str
  pub created : ℕ → Str
  pub writes : ℕ → List (FilePath × Node)
  -- What a prune deleted, and the bytes that it reclaimed.
  pub pruned : ℕ → List Str × ℕ
  -- `time.Now()`, and `randomHexString()`.
  pub now : ℕ → ℕ
  pub random : ℕ → Str
  -- `sha256.Sum256`, and the bytes of a tar archive with these members.
  pub sha256 : Str → Str
  pub tar_bytes : ℕ → List (FilePath × Content) → Str

-- A call that leaves the program: docker, a command, a counter of the metrics.
pub data Call : Type 0 where
  docker_open docker_close : Call
  image_build : (image uid : Str) (pull_parent no_cache : Bool) → Call
  image_output image_inspect : (image : Str) → Call
  container_list : (name : Str) → Call
  container_rename : (id name : Str) → Call
  container_create : (image name data_path : Str) (mounts : List (Str × Str)) → Call
  container_start container_logs container_copy container_inspect container_remove :
      (id : Str) → Call
  containers_prune images_prune : Call
  command : (args : List Str) → Call
  build_started build_coalesced cache_used : (project : Str) → Call
  build_finished : (project : Str) (success incremental : Bool) (duration : ℤ) → Call

-- `info` is the `BuildInfo` of the job that is worked on; it is shared and written in place.
pub record State : Type 0 where
  pub files : Files
  pub tick : ℕ
  pub calls : List Call
  pub info : BuildInfo

-- Code that may return an error.
abbrev pub T : Type 0 → Type 0
T A = State → Result A × State

abbrev pub pure {ℓ} : {A : Type ℓ} → A → State → Result A × State
pure a s = (ok a, s)

abbrev pub throw {ℓ} : {A : Type ℓ} → GoError → State → Result A × State
throw e s = (err e, s)

abbrev pub bind_result : {A B : Type 0} → (A → T B) → Result A × State → Result B × State
bind_result f (ok a, s) = f a s
bind_result f (err e, s) = (err e, s)

infixl 5 ◌>>=◌ ◌>>◌
abbrev pub ◌>>=◌ : {A B : Type 0} → T A → (A → T B) → T B
◌>>=◌ m f s = bind_result f (m s)

abbrev pub ◌>>◌ : {B : Type 0} → T (Unit {0}) → T B → T B
m >> k = m >>= λ _. k

-- `v, err := m`, with the error looked at by what follows.
abbrev pub try : {A : Type 0} → T A → T (Result A)
try m s = (ok (m s).0, (m s).1)

abbrev map_error_result : {A : Type 0} → (GoError → GoError) → Result A → Result A
map_error_result f (ok a) = ok a
map_error_result f (err e) = err (f e)

-- `if err != nil { return f(err) }`
abbrev pub map_error : {A : Type 0} → (GoError → GoError) → T A → T A
map_error f m s = (map_error_result f (m s).0, (m s).1)

abbrev pub update_info : (BuildInfo → BuildInfo) → T (Unit {0})
update_info f s = (ok tt, record s { info = f s.info })

abbrev pub read_info : T BuildInfo
read_info s = (ok s.info, s)

-- A function of the metrics: it is recorded and cannot fail.
abbrev pub record_call : Call → T (Unit {0})
record_call c s = (ok tt, record s { calls = s.calls ++ (c ∷ []) })

abbrev pub when : Bool → T (Unit {0}) → T (Unit {0})
when true m = m
when false m = pure tt

-- `for _, x := range xs { if err := f(x); err != nil { return err } }`
unfoldable pub for_each : {A : Type 0} → List A → (A → T (Unit {0})) → T (Unit {0})
for_each [] f = pure tt
for_each (x ∷ xs) f = f x >> for_each xs f

module _ (env : Env) where
  abbrev syscall_at : {A : Type 0} → Option Str → Op A → T A
  syscall_at (some m) op s = (err (message m), record s { tick = suc s.tick })
  syscall_at none op s = ((op s.files).0, record s { tick = suc s.tick; files = (op s.files).1 })

  -- A call of the operating system.
  unfoldable pub syscall : {A : Type 0} → Op A → T A
  syscall op s = syscall_at (env.fault s.tick) op s

  abbrev external_at : {A : Type 0} → Option Str → (ℕ → A) → T A
  external_at (some m) f s = (err (message m), record s { tick = suc s.tick })
  external_at none f s = (ok (f s.tick), record s { tick = suc s.tick })

  -- A call of docker that gives the value `f` of the environment.
  unfoldable pub external : {A : Type 0} → Call → (ℕ → A) → T A
  external c f s = external_at (env.fault s.tick) f (record s { calls = s.calls ++ (c ∷ []) })

  -- `time.Now()`
  abbrev pub get_now : T ℕ
  get_now s = (ok (env.now s.tick), s)

  abbrev with_output : Str → GoError → GoError
  with_output out e = message (error_text e ++ (codes " (" ++ (out ++ codes ")")))

  -- `utils.RunCmd` of a command that does `op` to the files, with the error of `runCmd`, which
  -- shows the command's output.
  unfoldable pub run_cmd : List Str → Op (Unit {0}) → T (Unit {0})
  unfolding syscall
  run_cmd args op s =
      map_error (with_output (env.output s.tick)) (record_call (command args) >> syscall op) s

-- pkg/filesystem: `FileSystem`
pub record FileSystem : Type 0 where
  pub create : FilePath → T (Unit {0})
  pub clone : FilePath → FilePath → T (Unit {0})
  pub remove : FilePath → T (Unit {0})

module _ (env : Env) where
  -- pkg/filesystem/plainfs
  abbrev pub plainfs : FileSystem
  plainfs = record {
    create = λ p. syscall env (mkdir p);
    clone = λ src dst.
        run_cmd env (codes "cp" ∷ codes "-r" ∷ render src ∷ render dst ∷ []) (copy_tree src dst);
    remove = λ p. syscall env (remove_all p);
  }

  abbrev pub subvolume : Str → List Str → List Str
  subvolume verb args = codes "btrfs" ∷ codes "subvolume" ∷ verb ∷ args

  -- pkg/filesystem/btrfs. A failing `os.Stat` of any kind makes `Remove` do nothing.
  abbrev pub btrfs : FileSystem
  btrfs = record {
    create = λ p. run_cmd env (subvolume (codes "create") (render p ∷ [])) (mkdir p);
    clone = λ src dst.
        run_cmd env (subvolume (codes "snapshot") (render src ∷ render dst ∷ []))
          (copy_tree src dst);
    remove = λ p. do
      found ← try (syscall env (stat p))
      elim found [
        | ok _ ↦ run_cmd env (subvolume (codes "delete") (render p ∷ [])) (remove_all p)
        | err _ ↦ pure tt
      ];
  }

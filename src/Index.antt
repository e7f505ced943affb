-- ===== src/Index.antt =====
-- cmd/mistryd/server.go: what the server reads and removes below its directories of projects and
-- builds: getProjects, getJobs and PruneZombieBuilds.
pub mod Listings
pub mod Named
pub mod Entries
pub mod Described
pub mod Shown
pub mod Projects
pub mod Pruning
use mistry.Base.{
  ℕ, Bool, true, false, ◌&&◌, Option, none, some, List, [], ◌∷◌, ◌++◌, is_some, ◌==◌, nat_eq,
  list_eq, if◌then◌else◌,
}
use mistry.Base.Text.{Str, codes, strip, less}
use mistry.Types.{GoError, Result, ok, err, message, error_text, is_not_exist, BuildInfo}
use mistry.Paths.{FilePath, join, is_name}
use mistry.Files.{Files, Node, Op, stat, is_dir, fail, absent}
use mistry.System.{Env, T, ◌>>=◌, pure, throw, try, map_error, for_each, syscall}
use mistry.Job.{Config, read_job_build_info}

-- One entry of `ioutil.ReadDir`.
pub record Entry : Type 0 where
  pub name : Str
  pub is_directory : Bool

-- The listing is sorted by name and has each name once.
insert_entry : Entry → List Entry → List Entry
insert_entry e [] = e ∷ []
insert_entry e (f ∷ es) =
    let rest = insert_entry e es in
    if e.name == f.name then f ∷ es else if less e.name f.name then e ∷ f ∷ es else f ∷ rest

-- What `x` adds to the listing of `p`, if it lies directly below it.
entry_of : Files → FilePath → Option FilePath → List Entry → List Entry
unfolding insert_entry
entry_of fs x none es = es
entry_of fs x (some []) es = es
entry_of fs x (some (name ∷ more)) es =
    if more == [] && (is_name name && is_some (fs.node x))
    then insert_entry (record { name = name; is_directory = is_dir (fs.node x) }) es
    else es

list_entries : Files → FilePath → List FilePath → List Entry
unfolding entry_of
list_entries fs p [] = []
list_entries fs p (x ∷ xs) = entry_of fs x (strip p x) (list_entries fs p xs)

-- `ioutil.ReadDir`
unfoldable pub read_dir : FilePath → Op (List Entry)
unfolding list_entries
read_dir p fs =
    if is_dir (fs.node p)
    then (ok (list_entries fs p fs.known), fs)
    else if is_some (fs.node p)
    then (fail "not a directory: " p, fs)
    else (absent p, fs)

-- A job as the index shows it.
pub record IndexJob : Type 0 where
  pub id : Str
  pub project : Str
  pub started_at : ℕ
  pub state : Str
  pub build_info : BuildInfo

abbrev pub wrap : Str → GoError → GoError
wrap what e = message (what ++ (codes "; " ++ error_text e))

pub directories : List Entry → List Str
directories [] = []
directories (e ∷ es) = let rest = directories es in if e.is_directory then e.name ∷ rest else rest

module _ (env : Env) where
  project_kept : Str → Result Node → T (List Str) → T (List Str)
  project_kept name (ok _) rest = rest >>= λ names. pure (name ∷ names)
  project_kept name (err e) rest = if is_not_exist e then rest else throw e

  -- Directories with a Dockerfile.
  select_projects : FilePath → List Str → T (List Str)
  unfolding project_kept
  select_projects root [] = pure []
  select_projects root (name ∷ names) = do
    found ← try (syscall env (stat (join root (name ∷ codes "Dockerfile" ∷ []))))
    project_kept name found (select_projects root names)

  -- `getProjects`
  unfoldable pub get_projects : Config → T (List Str)
  unfolding select_projects directories
  get_projects cfg = do
    folders ← syscall env (read_dir cfg.projects_path)
    select_projects cfg.projects_path (directories folders)

  prune_listed : Config → Str → FilePath → Result (List Entry) → T (Unit {0})
  prune_listed cfg project pending (err e) = pure tt
  prune_listed cfg project pending (ok builds) = for_each builds (λ build.
      map_error
        (λ _. message (
          codes "Error pruning zombie build '"
          ++ (build.name ++ (codes "' of project '" ++ (project ++ codes "'")))))
        (cfg.file_system.remove (join pending (build.name ∷ []))))

  prune_project : Config → Str → T (Unit {0})
  unfolding prune_listed
  prune_project cfg project = do
    builds ← try (syscall env (read_dir (join cfg.build_path (project ∷ codes "pending" ∷ []))))
    prune_listed cfg project (join cfg.build_path (project ∷ codes "pending" ∷ [])) builds

  -- `PruneZombieBuilds`
  unfoldable pub prune_zombie_builds : Config → T (Unit {0})
  unfolding prune_project
  prune_zombie_builds cfg = do projects ← get_projects cfg; for_each projects (prune_project cfg)

  existence : Str → Result Node → T Bool
  existence what (ok _) = pure true
  existence what (err e) = if is_not_exist e then pure false else throw (wrap what e)

  path_exists : Str → FilePath → T Bool
  unfolding existence
  path_exists what p = do found ← try (syscall env (stat p)); existence what found

  -- A listing that is read only if the path exists; if not, the variable keeps what it has from
  -- the project before.
  unfoldable pub list_jobs : Str → Bool → FilePath → List Entry → T (List Entry)
  list_jobs what true p old = map_error (wrap what) (syscall env (read_dir p))
  list_jobs what false p old = pure old

  -- `getJob` for each name of a listing.
  unfoldable pub index_jobs : FilePath → Str → Str → List Entry → T (List IndexJob)
  index_jobs path project state [] = pure []
  index_jobs path project state (e ∷ es) = do
    info ←
        map_error (wrap (codes "cannot find job " ++ e.name))
          (read_job_build_info env (join path (e.name ∷ [])) false)
    rest ← index_jobs path project state es
    pure (
        record {
          id = e.name;
          project = project;
          started_at = info.started_at;
          state = state;
          build_info = info;
        }
        ∷ rest)

  -- The loop of `getJobs`, with the listings that its two variables hold.
  unfoldable pub jobs_of : Config → List Entry → List Entry → List Str → T (List IndexJob)
  unfolding path_exists
  jobs_of cfg pending_jobs ready_jobs [] = pure []
  jobs_of cfg pending_jobs ready_jobs (p ∷ ps) = do
    pending_exists ←
        path_exists (codes "cannot check if pending path exists")
          (join cfg.build_path (p ∷ codes "pending" ∷ []))
    ready_exists ←
        path_exists (codes "cannot check if ready path exists")
          (join cfg.build_path (p ∷ codes "ready" ∷ []))
    pending_now ←
        list_jobs (codes "cannot scan pending jobs of project " ++ p) pending_exists
          (join cfg.build_path (p ∷ codes "pending" ∷ [])) pending_jobs
    ready_now ←
        list_jobs (codes "cannot scan ready jobs of project " ++ p) ready_exists
          (join cfg.build_path (p ∷ codes "ready" ∷ [])) ready_jobs
    pending_index ←
        index_jobs (join cfg.build_path (p ∷ codes "pending" ∷ [])) p (codes "pending") pending_now
    ready_index ←
        index_jobs (join cfg.build_path (p ∷ codes "ready" ∷ [])) p (codes "ready") ready_now
    rest ← jobs_of cfg pending_now ready_now ps
    pure (pending_index ++ (ready_index ++ rest))

  -- `getJobs`
  unfoldable pub get_jobs : Config → T (List IndexJob)
  unfolding directories
  get_jobs cfg = do
    folders ←
        map_error (wrap (codes "cannot scan projects")) (syscall env (read_dir cfg.build_path))
    jobs_of cfg [] [] (directories folders)

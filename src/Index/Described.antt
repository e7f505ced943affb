-- ===== src/Index/Described.antt =====
-- The jobs of a build directory, as the index of cmd/mistryd/server.go is to show them.
use mistry.Base.{◌≡◌, true, some, List, [], ◌∷◌, ◌++◌, nat_eq, list_eq, is_some}
use mathlib.Core.List.{map}
use mistry.Base.Text.{Str, codes}
use mistry.Paths.{FilePath, join, build_info_fname}
use mistry.Files.{Files, file, json_info, follow}
use mistry.Job.{Config}
use mistry.Index.{Entry, IndexJob}
use mistry.Index.Entries.{entries_at, folders_at}

-- A job by its project, its state and its id.
abbrev pub Key : Type 0
Key = Str × (Str × Str)

abbrev pub key_of : IndexJob → Key
key_of j = (j.project, (j.state, j.id))

abbrev pub state_path : Config → Str → Str → FilePath
state_path cfg project state = join cfg.build_path (project ∷ state ∷ [])

abbrev pub keys_in : Config → Files → Str → Str → List Key
keys_in cfg fs project state =
    map (λ (e : Entry). (project, (state, e.name))) (entries_at fs (state_path cfg project state))

-- Each name below `pending` and `ready` of each project.
abbrev pub keys_of : Config → Files → List Str → List Key
keys_of cfg fs [] = []
keys_of cfg fs (p ∷ ps) =
    keys_in cfg fs p (codes "pending") ++ (keys_in cfg fs p (codes "ready") ++ keys_of cfg fs ps)

-- The directories below the build path.
abbrev pub projects_in : Config → Files → List Str
projects_in cfg fs = folders_at fs cfg.build_path

-- The job has the info of its directory, and the time in it.
pub record IsShown (cfg : Config) (fs : Files) (j : IndexJob) : Type 0 where
  pub info :
      follow fs (join (join (state_path cfg j.project j.state) (j.id ∷ [])) (build_info_fname ∷ []))
      ≡ some (file (json_info j.build_info))
  pub time : j.started_at ≡ j.build_info.started_at

-- Each directory of the build path has the two directories of a project.
abbrev pub HasBoth : Config → Files → Str → Type 0
HasBoth cfg fs p =
    (is_some (follow fs (state_path cfg p (codes "pending"))) ≡ true)
    × (is_some (follow fs (state_path cfg p (codes "ready"))) ≡ true)

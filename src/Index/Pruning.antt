-- ===== src/Index/Pruning.antt =====
-- What PruneZombieBuilds of cmd/mistryd/server.go leaves alone.
use mistry.Base.{◌≡◌, refl, false, List, [], ◌∷◌, ◌++◌, arith, All, ◌==◌, nat_eq, list_eq}
use mistry.Base.Text.{Str, codes}
use mistry.Types.{GoError, Result, ok, err, is_not_exist}
use mistry.Paths.{FilePath, join}
use mistry.Paths.Laws.{join_one, join_two}
use mistry.System.{throw, try, State, plainfs, map_error, Env, T, syscall}
use mathlib.Core.List.{append_assoc}
use mistry.Files.Laws.{strip_cancel, OpKeeps-remove_all, OpKeeps-stat}
use mistry.Index.{
  prune_listed, prune_project, prune_zombie_builds, read_dir, get_projects, project_kept, Entry,
  select_projects,
}
use mistry.System.Laws.{
  Keeps-map_error, Keeps-for_each_All, Keeps-try, Keeps-syscall, keeps_rules, Keeps-pure, Keeps,
}
use mistry.Files.{under, Node}
use mistry.Job.{Config}
use mistry.System.Steps.{syscall_ok}
use mistry.Index.Named.{
  Returns, Keeps-bind_where, Returns-bind_where, Returns-pure, Returns-throw, Returns-if, OkHas,
  HasName, IsName, Returns-try, anything, read_dir-All, directories-All, OpKeeps-read_dir,
}

module _ (env : Env) where
  read_dir-Returns : (p : FilePath) → Returns (All HasName) (syscall env (read_dir p))
  read_dir-Returns p = record {
    at = λ s es h. read_dir-All p s.files es (syscall_ok env (read_dir p) s es h).0;
  }

  project_kept-Returns :
      (name : Str) (found : Result Node) (rest : T (List Str))
      → IsName name
      → Returns (All IsName) rest
      → Returns (All IsName) (project_kept env name found rest)
  unfolding project_kept
  project_kept-Returns name (ok _) rest n r =
      Returns-bind_where (All IsName) (All IsName) rest _ r
        (λ names a. Returns-pure (All IsName) (name ∷ names) (n, a))
  project_kept-Returns name (err e) rest n r =
      Returns-if (All IsName) (is_not_exist e) rest (throw e) r (Returns-throw (All IsName) e)

  select_projects-Returns :
      (root : FilePath) (names : List Str)
      → All IsName names
      → Returns (All IsName) (select_projects env root names)
  unfolding select_projects
  select_projects-Returns root [] a = Returns-pure (All IsName) [] tt
  select_projects-Returns root (name ∷ names) a =
      Returns-bind_where (All IsName) (λ _. Unit {0}) (try (syscall env _)) _ (anything _)
        (λ found _. project_kept-Returns name found _ a.0 (select_projects-Returns root names a.1))

  get_projects-Returns : (cfg : Config) → Returns (All IsName) (get_projects env cfg)
  unfolding get_projects
  get_projects-Returns cfg =
      Returns-bind_where (All IsName) (All HasName) (syscall env (read_dir cfg.projects_path)) _
        (read_dir-Returns cfg.projects_path)
        (λ folders a. select_projects-Returns cfg.projects_path _ (directories-All folders a))

  module _ (x : FilePath) where
    project_kept-Keeps :
        (name : Str) (found : Result Node) (rest : T (List Str))
        → Keeps x rest
        → Keeps x (project_kept env name found rest)
    unfolding project_kept
    project_kept-Keeps name (ok _) rest k = search keeps_rules depth 8
    project_kept-Keeps name (err e) rest k = search keeps_rules depth 8

    select_projects-Keeps :
        (root : FilePath) (names : List Str) → Keeps x (select_projects env root names)
    unfolding select_projects
    select_projects-Keeps root [] = Keeps-pure x []
    select_projects-Keeps root (name ∷ names) =
        let rest = select_projects-Keeps root names in
        search (keeps_rules, project_kept-Keeps, OpKeeps-stat) depth 10

    get_projects-Keeps : (cfg : Config) → Keeps x (get_projects env cfg)
    unfolding get_projects
    get_projects-Keeps cfg = search (keeps_rules, select_projects-Keeps, OpKeeps-read_dir) depth 10

-- What is pruned lies below the directory of pending builds of a project.
pending_apart :
    (cfg : Config) (q d : Str) (r : List Str) (p name : Str)
    → IsName p
    → IsName name
    → (codes "pending" == d) ≡ false
    → under
        (join (join cfg.build_path (p ∷ codes "pending" ∷ [])) (name ∷ []))
        (cfg.build_path ++ (q ∷ d ∷ r))
      ≡ false
pending_apart cfg q d r p name n m other =
    rw
      (
        join_two cfg.build_path p (codes "pending") n refl,
        join_one (cfg.build_path ++ (p ∷ codes "pending" ∷ [])) name m,
        append_assoc cfg.build_path (p ∷ codes "pending" ∷ []) (name ∷ []),
        strip_cancel cfg.build_path (p ∷ codes "pending" ∷ name ∷ []) (q ∷ d ∷ r),
      )
      (ground (arith, other))

module _ (env : Env) (cfg : Config) (x : FilePath) (plain : cfg.file_system ≡ plainfs env)
    (apart : (p name : Str)
      → IsName p
      → IsName name
      → under (join (join cfg.build_path (p ∷ codes "pending" ∷ [])) (name ∷ [])) x ≡ false) where
  remove-Keeps : (p : FilePath) → under p x ≡ false → Keeps x (cfg.file_system.remove p)
  remove-Keeps p h = rw plain (search (keeps_rules, OpKeeps-remove_all) depth 6)

  builds-Keeps :
      (g : Entry → GoError → GoError) (p : Str) (builds : List Entry)
      → IsName p
      → All HasName builds
      → All
          (λ (b : Entry). Keeps x (
            map_error (g b) (
              cfg.file_system.remove
                (join (join cfg.build_path (p ∷ codes "pending" ∷ [])) (b.name ∷ [])))))
          builds
  builds-Keeps g p [] n a = tt
  builds-Keeps g p (b ∷ builds) n a = (
    Keeps-map_error x (g b) _ (remove-Keeps _ (apart p b.name n a.0)),
    builds-Keeps g p builds n a.1,
  )

  prune_listed-Keeps :
      (p : Str) (found : Result (List Entry))
      → IsName p
      → OkHas (All HasName) found
      → Keeps x (prune_listed env cfg p (join cfg.build_path (p ∷ codes "pending" ∷ [])) found)
  unfolding prune_listed
  prune_listed-Keeps p (ok builds) n a = Keeps-for_each_All x builds _ (builds-Keeps _ p builds n a)
  prune_listed-Keeps p (err e) n a = Keeps-pure x tt

  prune_project-Keeps : (p : Str) → IsName p → Keeps x (prune_project env cfg p)
  unfolding prune_project
  prune_project-Keeps p n =
      Keeps-bind_where x (OkHas (All HasName)) (try (syscall env (read_dir _))) _
        (Keeps-try x _ (Keeps-syscall x env _ (OpKeeps-read_dir x _)))
        (Returns-try (All HasName) _ (read_dir-Returns env _))
        (λ found a. prune_listed-Keeps p found n a)

  projects-Keeps : (ps : List Str) → All IsName ps → All (λ p. Keeps x (prune_project env cfg p)) ps
  projects-Keeps [] a = tt
  projects-Keeps (p ∷ ps) a = (prune_project-Keeps p a.0, projects-Keeps ps a.1)

  prune-Keeps : Keeps x (prune_zombie_builds env cfg)
  unfolding prune_zombie_builds
  prune-Keeps =
      Keeps-bind_where x (All IsName) (get_projects env cfg) _ (get_projects-Keeps env x cfg)
        (get_projects-Returns env cfg) (λ ps a. Keeps-for_each_All x ps _ (projects-Keeps ps a))

-- Pruning at start, with the plain file system adapter, leaves every path
-- `<build path>/<project>/<d>/...` as it was where `d` is not `pending`, whatever calls fail: ready
-- builds, the links `latest` and the groups.
pub prune_zombie_builds-keeps :
    (env : Env) (cfg : Config) (q d : Str) (r : List Str) (s : State)
    → cfg.file_system ≡ plainfs env
    → (codes "pending" == d) ≡ false
    → (prune_zombie_builds env cfg s).1.files.node (cfg.build_path ++ (q ∷ d ∷ r))
      ≡ s.files.node (cfg.build_path ++ (q ∷ d ∷ r))
prune_zombie_builds-keeps env cfg q d r s plain other =
    (prune-Keeps env cfg (cfg.build_path ++ (q ∷ d ∷ r)) plain
        (λ p name n m. pending_apart cfg q d r p name n m other)).at
      s

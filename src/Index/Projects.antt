-- ===== src/Index/Projects.antt =====
-- Which projects the server finds (getProjects of cmd/mistryd/server.go).
use mistry.Base.{
  ◌≡◌, refl, Bool, true, false, inl, inr, List, [], ◌∷◌, arith, nat_eq, list_eq, keep_if, is_some,
  Bool-cases,
}
use mistry.Base.Text.{Str, codes}
use mistry.Types.{Result, ok, err, value_or, is_not_exist}
use mathlib.Core.Path.{sym, ap, subst, ◌∙◌}
use mistry.Paths.{FilePath, join}
use mistry.Files.{Files, Node, follow, stat}
use mistry.System.{Env, State, syscall}
use mistry.System.Steps.{bind_ok, syscall_ok}
use mistry.Job.{Config}
use mistry.Index.{read_dir, directories, project_kept, select_projects, get_projects}
use mistry.Index.Entries.{entries_at, folders_at, directories-folders, read_dir-files}

-- The directory `name` below `root` has a Dockerfile.
abbrev pub has_dockerfile : Files → FilePath → Str → Bool
has_dockerfile fs root name = is_some (follow fs (join root (name ∷ codes "Dockerfile" ∷ [])))

-- The directories of the projects path that have a Dockerfile.
abbrev pub dockerfile_projects : Config → Files → List Str
dockerfile_projects cfg fs =
    keep_if (has_dockerfile fs cfg.projects_path) (folders_at fs cfg.projects_path)

module _ (env : Env) (root : FilePath) where
  stat-files : (p : FilePath) (s : State) → (syscall env (stat p) s).1.files ≡ s.files
  unfolding syscall stat
  stat-files p s = ground arith

  -- What a `stat` tells of the Dockerfile.
  abbrev Tells : Bool → Result Node → Type 0
  Tells there (ok n) = there ≡ true
  Tells there (err e) = is_not_exist e ≡ true → there ≡ false

  stat-Tells :
      (p : FilePath) (s : State) (r : Result Node)
      → (syscall env (stat p) s).0 ≡ r
      → Tells (is_some (follow s.files p)) r
  unfolding syscall stat
  stat-Tells p s (ok n) h = ground (arith, h)
  stat-Tells p s (err e) h = λ k. ground (arith, h, k)

  kept-step :
      (fs : Files) (name : Str) (names found : List Str) (r : Result Node) (t : State)
      → Tells (has_dockerfile fs root name) r
      → ((ns : List Str)
          → (select_projects env root names t).0 ≡ ok ns
          → ns ≡ keep_if (has_dockerfile fs root) names)
      → (project_kept env name r (select_projects env root names) t).0 ≡ ok found
      → found ≡ keep_if (has_dockerfile fs root) (name ∷ names)
  unfolding project_kept
  kept-step fs name names found (ok n) t told ih h =
      let (ns, made, _, last) = bind_ok (select_projects env root names) _ t found h in
      rw told (sym (ap (value_or found) last) ∙ ap (λ xs. name ∷ xs) (ih ns made))
  kept-step fs name names found (err e) t told ih h = elim (Bool-cases (is_not_exist e)) [
    | inl k ↦ rw (told k) (ih found (ground (arith, k, h)))
    | inr k ↦ absurd (ground (arith, k, h))
  ]

  select_projects-kept :
      (names found : List Str) (fs : Files) (s : State)
      → s.files ≡ fs
      → (select_projects env root names s).0 ≡ ok found
      → found ≡ keep_if (has_dockerfile fs root) names
  unfolding select_projects
  select_projects-kept [] found fs s k h = sym (ap (value_or found) h)
  select_projects-kept (name ∷ names) found fs s k h =
      let p = join root (name ∷ codes "Dockerfile" ∷ []) in
      let r = (syscall env (stat p) s).0 in
      let t = (syscall env (stat p) s).1 in
      kept-step fs name names found r t
        (subst (λ x. Tells (has_dockerfile x root name) r) k (stat-Tells p s r refl))
        (λ ns. select_projects-kept names ns fs t (stat-files p s ∙ k)) h

-- `getProjects` finds the directories that have a Dockerfile, in their order.
pub get_projects-found :
    (env : Env) (cfg : Config) (names : List Str) (s : State)
    → (get_projects env cfg s).0 ≡ ok names
    → names ≡ dockerfile_projects cfg s.files
unfolding get_projects
get_projects-found env cfg names s h =
    let read = read_dir cfg.projects_path in
    let (folders, got, _, rest) = bind_ok (syscall env read) _ s names h in
    let seen = syscall_ok env read s folders got in
    let kept = ap (λ r. r.1.files) seen.1 ∙ read_dir-files cfg.projects_path s.files in
    select_projects-kept env cfg.projects_path (directories folders) names s.files _ kept rest
    ∙ ap (keep_if (has_dockerfile s.files cfg.projects_path)) (
        ap directories (sym (ap (value_or []) seen.0))
        ∙ directories-folders (entries_at s.files cfg.projects_path))

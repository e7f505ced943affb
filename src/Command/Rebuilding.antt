-- ===== src/Command/Rebuilding.antt =====
-- What the success of the commands of cmd/mistryd/main.go tells.
use mistry.Base.{
  ◌≡◌, refl, ◌⊎◌, inl, inr, Bool, Option, none, some, List, [], ◌∷◌, ◌++◌, arith, length, nat_eq,
  list_eq,
}
use mistry.Base.Text.{Str, codes}
use mistry.Types.{GoError, ok}
use mathlib.Core.Path.{ap}
use mistry.Paths.{FilePath}
use mistry.System.{Env, State}
use mistry.Job.{Config}
use mistry.Rebuild.{RebuildResult, rebuild_images, rebuild_text, chosen}
use mistry.Rebuild.Counts.{rebuild_images-Counts}
use mistry.Command.{
  Process, parse_config_from_cli, rebuild_message, rebuild_reported, rebuild_action,
}
use mistry.System.Steps.{bind_ok}
use mistry.Rebuild.Built.{opened}
use mistry.Rebuild.Built.{IsBuilt}
use mistry.Rebuild.Built.{rebuild_images-IsBuilt}
use mistry.Types.{value_or}
use mathlib.Core.Path.{sym}
use mistry.Index.Projects.{get_projects-found}
use mistry.Index.Projects.{dockerfile_projects}

list_cases {ℓ} :
    {A : Type ℓ} (xs : List A) → (xs ≡ []) ⊎ ((x : A) × ((ys : List A) × (xs ≡ x ∷ ys)))
list_cases [] = inl refl
list_cases (x ∷ ys) = inr (x, (ys, refl))

-- The projects that were given, or, if there are none, those that have a Dockerfile.
pub IsChosen : Config → State → List Str → List Str → Type 0
IsChosen cfg t [] names = names ≡ dockerfile_projects cfg t.files
IsChosen cfg t (p ∷ ps) names = names ≡ p ∷ ps

chosen-IsChosen :
    (env : Env) (cfg : Config) (projects names : List Str) (t : State)
    → (chosen env cfg projects t).0 ≡ ok names
    → IsChosen cfg t projects names
unfolding chosen IsChosen
chosen-IsChosen env cfg [] names t h = get_projects-found env cfg names t h
chosen-IsChosen env cfg (p ∷ ps) names t h = ap (value_or names) (sym h)

module _ (env : Env) (process : Process) where
  rebuild_message-ok :
      (r : RebuildResult) (out : Str)
      → rebuild_message env process r ≡ ok out
      → (r.failed ≡ [])
        × (out ≡ codes "Finished. " ++ (rebuild_text process.human_size r ++ codes "\n"))
  rebuild_message-ok r out h = elim (list_cases r.failed) [
    | inl e ↦ (e, ground (arith, e, h))
    | inr (x, (xs, e)) ↦ absurd (ground (arith, e, h))
  ]

  -- From the state `s` the image of each of the projects was built, and what the command `rebuild`
  -- prints is a result with so many projects and no failed one.
  pub record IsComplete (cfg : Config) (s : State) (names : List Str) (out : Str) : Type 0 where
    pub built : IsBuilt env cfg names s
    pub result : RebuildResult
    pub successful : result.successful ≡ length names
    pub failed : result.failed ≡ []
    pub printed : out ≡ codes "Finished. " ++ (rebuild_text process.human_size result ++ codes "\n")

  images-all :
      (cfg : Config) (projects : List Str) (fail_fast : Bool) (t u : State)
      (end : RebuildResult × Option GoError) (out : Str)
      → (rebuild_images env cfg projects fail_fast t).0 ≡ ok end
      → (rebuild_reported env process end u).0 ≡ ok out
      → (names : List Str) × (((chosen env cfg projects t).0 ≡ ok names)
          × ((IsChosen cfg t projects names)
              × IsComplete cfg (opened env (chosen env cfg projects t).1) names out))
  unfolding rebuild_reported
  images-all cfg projects fail_fast t u (r, some e) out ended told = absurd (cc)
  images-all cfg projects fail_fast t u (r, none) out ended told =
      let (names, both) = rebuild_images-Counts env cfg fail_fast r projects t ended in
      let (failed, printed) = rebuild_message-ok r out told in
      (
        names,
        (
          both.0,
          (
            chosen-IsChosen env cfg projects names t both.0,
            record {
              built =
                  rebuild_images-IsBuilt env cfg fail_fast r failed projects names t both.0 ended;
              result = r;
              successful = omega (arith, both.1.0, ap (λ xs. length xs) failed);
              failed = failed;
              printed = printed;
            },
          ),
        ),
      )

  -- If the command `rebuild` ends without an error, with `--fail-fast` or not, then its
  -- configuration was accepted, for each project that was given, or, where none was given, each
  -- directory of the projects path with a Dockerfile, one after the other, a job was made and its
  -- image was built, both without an error, and what the command prints is a result with so many
  -- projects rebuilt and none failed.
  pub rebuild_action-all :
      (file_system : Str) (config : FilePath) (addr : Str) (projects : List Str) (fail_fast : Bool)
      (s : State) (out : Str)
      → (rebuild_action env process file_system config addr projects fail_fast s).0 ≡ ok out
      → (cfg : Config) × (((parse_config_from_cli env process file_system config addr s).0 ≡ ok cfg)
          × ((names : List Str) × (((chosen env cfg projects
                    (parse_config_from_cli env process file_system config addr s).1).0
                  ≡ ok names)
                × ((IsChosen cfg
                      (parse_config_from_cli env process file_system config addr s).1
                      projects
                      names)
                    × IsComplete cfg
                        (opened env
                          (chosen env cfg projects
                            (parse_config_from_cli env process file_system config addr s).1).1)
                        names
                        out))))
  unfolding rebuild_action
  rebuild_action-all file_system config addr projects fail_fast s out h =
      let (cfg, parsed, _, rest) =
        bind_ok (parse_config_from_cli env process file_system config addr) _ s out h in
      let t = (parse_config_from_cli env process file_system config addr s).1 in
      let (end, ended, _, told) =
        bind_ok (rebuild_images env cfg projects fail_fast) (rebuild_reported env process) t out
          rest in
      (cfg, (parsed, images-all cfg projects fail_fast t _ end out ended told))

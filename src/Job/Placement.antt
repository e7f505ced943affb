-- ===== src/Job/Placement.antt =====
-- cmd/mistryd/job.go: where the paths of a job lie, when its names are single pieces of a path.
use mistry.Base.{
  ◌≡◌, refl, ◌∙◌, arith, true, false, ◌==◌, ◌++◌, ◌∷◌, [], nat_eq, list_eq, All, if◌then◌else◌, ◌<◌,
  ℕ, contains, ◌≢◌, ap, Bool-cases, inl, inr,
}
use mistry.Base.Text.{Str, codes}
use mistry.Types.{Params}
use mistry.Paths.{FilePath, join, is_name, build_info_fname, build_log_fname, slash}
use mistry.Job.{Config, Job, job_of, hex, ◌/◌, hex_digit, seed, ◌%◌}
use mistry.Paths.Laws.{join_one, join_two}

-- The job lies under `root`, and the names of its parameters are single pieces.
pub record IsPlaced (root : FilePath) (j : Job) : Type 0 where
  pub root_path : j.root_build_path ≡ root
  pub pending : j.pending_build_path ≡ root ++ (codes "pending" ∷ j.id ∷ [])
  pub ready : j.ready_build_path ≡ root ++ (codes "ready" ∷ j.id ∷ [])
  pub info : j.build_info_file_path ≡ j.pending_build_path ++ (build_info_fname ∷ [])
  pub log : j.build_log_path ≡ j.pending_build_path ++ (build_log_fname ∷ [])
  pub latest :
      j.latest_build_path
      ≡ root ++ (if j.group == [] then codes "latest" ∷ [] else codes "groups" ∷ j.group ∷ [])
  pub named : All (λ kv. is_name kv.0 ≡ true) j.params

hex_digit_bounds : (n : ℕ) → 47 < hex_digit n
hex_digit_bounds n = ground arith

contains-hex : (bs : Str) → contains (hex bs) slash ≡ false
unfolding hex
contains-hex [] = refl
contains-hex (b ∷ bs) =
    ground (arith, hex_digit_bounds (b / 16), hex_digit_bounds (b % 16), contains-hex bs)

-- The digits of at least one byte are a name.
hex-is_name : (b : ℕ) (bs : Str) → is_name (hex (b ∷ bs)) ≡ true
unfolding hex
hex-is_name b bs =
    ground (arith, hex_digit_bounds (b / 16), hex_digit_bounds (b % 16), contains-hex bs)

module _ (sha256 : Str → Str) (project : Str) (params : Params) (group : Str) (cfg : Config)
    (image_tar : Str) (now : ℕ) where
  abbrev pub made : Job
  made = job_of sha256 project params group cfg image_tar now

  -- A digest is not empty, a project is a name, a group is a name or absent, and the parameters
  -- are named by names: then the paths of the job that `NewJob` makes lie where they should.
  pub job_of-IsPlaced :
      (b : ℕ) (bs : Str)
      → sha256 (seed project params group image_tar) ≡ b ∷ bs
      → is_name project ≡ true
      → (group ≢ [] → is_name group ≡ true)
      → All (λ kv. is_name kv.0 ≡ true) params
      → IsPlaced (cfg.build_path ++ (project ∷ [])) made
  unfolding job_of
  job_of-IsPlaced b bs digest p g named = record {
    root_path = at_root;
    pending =
        join_two _ _ _ refl id_named ∙ ap (λ r. r ++ (codes "pending" ∷ made.id ∷ [])) at_root;
    ready = join_two _ _ _ refl id_named ∙ ap (λ r. r ++ (codes "ready" ∷ made.id ∷ [])) at_root;
    info = join_one _ _ refl;
    log = join_one _ _ refl;
    latest = elim (Bool-cases (group == [])) [
      | inl e ↦ rw e (join_one _ _ refl ∙ ap (λ r. r ++ (codes "latest" ∷ [])) at_root)
      | inr e ↦ rw e (
          join_two _ _ _ refl (g (λ q. cc (e, q)))
          ∙ ap (λ r. r ++ (codes "groups" ∷ group ∷ [])) at_root)
    ];
    named = named;
  }
    where
      at_root : join cfg.build_path (project ∷ []) ≡ cfg.build_path ++ (project ∷ [])
      at_root = join_one cfg.build_path project p

      id_named : is_name (hex (sha256 (seed project params group image_tar))) ≡ true
      id_named = rw digest (hex-is_name b bs)

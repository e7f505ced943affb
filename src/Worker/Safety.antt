-- ===== src/Worker/Safety.antt =====
-- cmd/mistryd/worker.go: what a build with the plain file system adapter cannot break.
use mistry.Base.{
  ◌≡◌, refl, ◌∙◌, ◌≢◌, ℕ, Bool, true, false, ◌==◌, ◌++◌, ◌∷◌, [], nat_eq, list_eq, inl, inr,
  if◌then◌else◌, sym, list_beq_iff, ne_of, ◌⊎◌, ap,
}
use mistry.Base.Int.{pos}
use mistry.Base.Text.{Str, codes}
use mistry.Paths.{FilePath}
use mistry.Files.Laws.{beq_cancel}
use mistry.System.{Env, State, plainfs}
use mistry.Job.{Config, Job}
use mistry.Job.Placement.{IsPlaced}
use mistry.Worker.{build}
use mistry.Worker.Isolation.{IsElsewhere, Apart-elsewhere, plainfs-AdapterKeeps}
use mistry.Worker.Whole.{build-node}

-- Where `latest` lies below the root, without and with a group.
abbrev latest_tail : Bool → Str → FilePath
latest_tail no_group group = if no_group then codes "latest" ∷ [] else codes "groups" ∷ group ∷ []

latest-IsElsewhere :
    (j : Job) (no_group : Bool) (group : Str) → IsElsewhere j (latest_tail no_group group)
latest-IsElsewhere j true group = record {
  not_root = refl;
  not_pending = refl;
  not_ready = refl;
  not_groups = refl;
  pending_tree = refl;
  ready_tree = refl;
}
latest-IsElsewhere j false group = record {
  not_root = refl;
  not_pending = refl;
  not_ready = refl;
  not_groups = refl;
  pending_tree = refl;
  ready_tree = refl;
}

-- The directory of the builds that run, and of those that are done.
abbrev pub part : Bool → Str
part true = codes "ready"
part false = codes "pending"

other-IsElsewhere :
    (j : Job) (done : Bool) (id : Str) (rest : FilePath)
    → id ≢ j.id
    → IsElsewhere j (part done ∷ id ∷ rest)
other-IsElsewhere j true id rest other = record {
  not_root = refl;
  not_pending = refl;
  not_ready = refl;
  not_groups = refl;
  pending_tree = refl;
  ready_tree = rw (ne_of j.id id (λ e. other (sym e)));
}
other-IsElsewhere j false id rest other = record {
  not_root = refl;
  not_pending = refl;
  not_ready = refl;
  not_groups = refl;
  pending_tree = rw (ne_of j.id id (λ e. other (sym e)));
  ready_tree = refl;
}

part-ne-latest :
    (done no_group : Bool) (group id : Str) (rest : FilePath)
    → (part done ∷ id ∷ rest == latest_tail no_group group) ≡ false
part-ne-latest true true group id rest = refl
part-ne-latest true false group id rest = refl
part-ne-latest false true group id rest = refl
part-ne-latest false false group id rest = refl

module _ (env : Env) {root : FilePath} {j : Job} (p : IsPlaced root j) (cfg : Config)
    (plain : cfg.file_system ≡ plainfs env) (metrics : Bool) (start : ℕ) (s : State) where
  build_elsewhere :
      (y : FilePath)
      → IsElsewhere j y
      → (((build env j cfg metrics start s).1.info.exit_code ≢ pos 0)
          ⊎ (root ++ y ≢ j.latest_build_path))
      → (build env j cfg metrics start s).1.files.node (root ++ y) ≡ s.files.node (root ++ y)
  build_elsewhere y el h =
      let a = Apart-elsewhere p y el in
      build-node env j cfg (root ++ y) a
        (rw plain (plainfs-AdapterKeeps env j _ a.pending_tree a.ready_tree)) metrics start s h

  -- Whatever fails, a build that ends with an exit code other than 0 leaves the link `latest` of
  -- its project or group as it was.
  pub build-keeps_latest :
      (build env j cfg metrics start s).1.info.exit_code ≢ pos 0
      → (build env j cfg metrics start s).1.files.node j.latest_build_path
        ≡ s.files.node j.latest_build_path
  build-keeps_latest h =
      ap ((build env j cfg metrics start s).1.files.node) p.latest
      ∙ build_elsewhere _ (latest-IsElsewhere j (j.group == []) j.group) (inl h)
      ∙ ap s.files.node (sym p.latest)

  -- The directories of another job, pending or ready, stay as they were.
  pub build-keeps_part :
      (done : Bool) (id : Str) (rest : FilePath)
      → id ≢ j.id
      → let x = root ++ (part done ∷ id ∷ rest) in
        (build env j cfg metrics start s).1.files.node x ≡ s.files.node x
  build-keeps_part done id rest other = build_elsewhere _ (other-IsElsewhere j done id rest other) (
      inr λ e. cc (
        part-ne-latest done (j.group == []) j.group id rest,
        sym (beq_cancel root (part done ∷ id ∷ rest) (latest_tail (j.group == []) j.group))
            ∙ (list_beq_iff _ _).1 (e ∙ p.latest),
      ))

  -- Whatever happens, a build leaves every file of another job's ready build as it was.
  pub build-keeps_others :
      (id : Str) (rest : FilePath)
      → id ≢ j.id
      → let x = root ++ (codes "ready" ∷ id ∷ rest) in
        (build env j cfg metrics start s).1.files.node x ≡ s.files.node x
  build-keeps_others id rest other = build-keeps_part true id rest other

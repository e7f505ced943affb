-- ===== src/Worker/Finish.antt =====
-- cmd/mistryd/worker.go: what a build leaves behind once it is past the bootstrap.
use mistry.Base.{
  ◌≡◌, refl, some, arith, false, nat_eq, list_eq, ◌≢◌, ◌++◌, [], Bool, ℕ, ◌∙◌, ◌⊎◌, inl, inr, ne_of,
  sym, ap, ◌∷◌, ◌==◌,
}
use mistry.Base.Int.{int_eq, pos, int_beq_iff}
use mistry.Types.{BuildInfo, GoError, Result, ok, err}
use mistry.Paths.{FilePath}
use mistry.Files.{file, json_info, under, link}
use mistry.Files.Laws.{OpKeeps-rename, write_file_ok, rename_ok}
use mistry.System.{Env, State, syscall}
use mistry.System.Laws.{Keeps-syscall}
use mistry.System.Steps.{syscall_ok}
use mistry.Job.{Job, Config}
use mistry.Worker.{record_outcome, publish, finish_build}
use mistry.Worker.Bootstrap.{persist_build_info}
use mistry.Worker.Running.{run_build}
use mistry.Worker.Frame.{Outside, Keeps-record_outcome, Keeps-run_build}
use mistry.Worker.Publish.{
  moved, publish_err-node, publish-info, publish_ok-latest, publish_exit-node, publish-node,
  publish_ok,
}
use mistry.Base.Text.{Str}

-- `x` is no path of a build of `j` at all, before or after it is published.
pub record Apart (j : Job) (x : FilePath) : Type 0 where
  pub outside : Outside j x
  pub pending_tree : under j.pending_build_path x ≡ false
  pub ready_tree : under j.ready_build_path x ≡ false

-- What `persistBuildInfo` writes of an info.
abbrev pub without_logs : BuildInfo → BuildInfo
without_logs i = record i { container_stdouterr = []; container_stderr = [] }

module _ (env : Env) (j : Job) (s : State) where
  moved-node :
      (x : FilePath)
      → under j.pending_build_path x ≡ false
      → under j.ready_build_path x ≡ false
      → (moved env j s).1.files.node x ≡ s.files.node x
  moved-node x p r = (Keeps-syscall x env _ (OpKeeps-rename x _ _ p r)).at s

  -- An error stays one.
  record_outcome_err : (e : GoError) → (record_outcome env j (err e) s).0 ≢ ok tt
  unfolding record_outcome persist_build_info syscall
  record_outcome_err e = ground arith

  -- Without an error the last info is in its file.
  record_outcome_ok :
      (outcome : Result (Unit {0}))
      → (record_outcome env j outcome s).0 ≡ ok tt
      → (outcome ≡ ok tt)
        × ((record_outcome env j outcome s).1.files.node j.build_info_file_path
            ≡ some (file (json_info (without_logs (record_outcome env j outcome s).1.info))))
  unfolding record_outcome persist_build_info syscall
  record_outcome_ok (ok a) h = (
    refl,
    ground (arith, write_file_ok j.build_info_file_path (json_info (without_logs s.info)) s.files),
  )
  record_outcome_ok (err e) h = absurd (ground arith)

module _ (env : Env) (j : Job) (cfg : Config) (metrics : Bool) (start : ℕ) (s : State) where
  abbrev pub ran : Result (Unit {0}) × State
  ran = run_build env j cfg metrics start s

  abbrev recorded : Result (Unit {0}) × State
  recorded = record_outcome env j ran.0 ran.1

  abbrev pub finished : Result (Unit {0}) × State
  finished = finish_build env j cfg metrics start s

  recorded-node :
      (x : FilePath) → Apart j x → (moved env j recorded.1).1.files.node x ≡ s.files.node x
  recorded-node x a =
      moved-node env j recorded.1 x a.pending_tree a.ready_tree
      ∙ (Keeps-record_outcome env j x a.outside ran.0).at ran.1
      ∙ (Keeps-run_build env j x a.outside cfg metrics start).at s

  recorded_failed :
      (r : Result (Unit {0}))
      → r ≢ ok tt
      → (x : FilePath)
      → (publish env j r recorded.1).1.files.node x ≡ (moved env j recorded.1).1.files.node x
  recorded_failed (ok tt) h x = absurd (h refl)
  recorded_failed (err e) h x = publish_err-node env j recorded.1 e x

  recorded-err : ran.0 ≢ ok tt → recorded.0 ≢ ok tt
  recorded-err h e = h (record_outcome_ok env j ran.1 ran.0 e).0

  finished-info : finished.1.info ≡ recorded.1.info
  unfolding finish_build
  finished-info = publish-info env j recorded.1 recorded.0

  -- A build whose steps failed, or whose exit code is not 0, leaves the link `latest` as it was,
  -- and every build leaves alone what is apart from it and is not its link.
  pub finish_build-keeps :
      (x : FilePath)
      → Apart j x
      → (ran.0 ≢ ok tt) ⊎ ((finished.1.info.exit_code ≢ pos 0) ⊎ (x ≢ j.latest_build_path))
      → finished.1.files.node x ≡ s.files.node x
  unfolding finish_build
  finish_build-keeps x a (inl failed) =
      recorded_failed recorded.0 (recorded-err failed) x ∙ recorded-node x a
  finish_build-keeps x a (inr (inl code)) =
      publish_exit-node env j recorded.1 recorded.0 x
        (ne_of _ _ (λ e. code (ap (λ (i : BuildInfo). i.exit_code) finished-info ∙ e)))
      ∙ recorded-node x a
  finish_build-keeps x a (inr (inr other)) =
      publish-node env j recorded.1 recorded.0 x (ne_of x j.latest_build_path other)
      ∙ recorded-node x a

  -- Without an error and with exit code 0, `latest` is a link to the ready path.
  pub finish_build-latest :
      finished.0 ≡ ok tt
      → finished.1.info.exit_code ≡ pos 0
      → finished.1.files.node j.latest_build_path ≡ some (link j.ready_build_path)
  unfolding finish_build
  finish_build-latest h code =
      publish_ok-latest env j recorded.1 recorded.0 h
        ((int_beq_iff _ _).1 (sym (ap (λ (i : BuildInfo). i.exit_code) finished-info) ∙ code))

  -- Without an error the ready path holds the info that is returned, without its logs.
  pub finish_build-info :
      (name : Str)
      → j.build_info_file_path ≡ j.pending_build_path ++ (name ∷ [])
      → (j.ready_build_path ++ (name ∷ []) == j.latest_build_path) ≡ false
      → finished.0 ≡ ok tt
      → finished.1.files.node (j.ready_build_path ++ (name ∷ []))
        ≡ some (file (json_info (without_logs finished.1.info)))
  unfolding finish_build
  finish_build-info name place apart h =
      let published = publish_ok env j recorded.1 recorded.0 h in
      let renamed = syscall_ok env _ recorded.1 tt published.1 in
      publish-node env j recorded.1 recorded.0 _ apart
      ∙ ap (λ (r : Result (Unit {0}) × State). r.1.files.node (j.ready_build_path ++ (name ∷ [])))
          renamed.1
      ∙ rename_ok _ _ (name ∷ []) recorded.1.files renamed.0
      ∙ ap recorded.1.files.node (sym place)
      ∙ (record_outcome_ok env j ran.1 ran.0 published.0).1
      ∙ ap (λ (i : BuildInfo). some (file (json_info (without_logs i)))) (sym finished-info)

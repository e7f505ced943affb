-- ===== src/Docker.antt =====
-- The docker part of cmd/mistryd/job.go (BuildImage and StartContainer), and `defer`.
use mistry.Base.{String, ℕ, Bool, some, List, [], ◌∷◌, ◌++◌, nat_eq, list_eq}
use mistry.Base.Text.{Str, codes}
use mistry.Base.Int.{ℤ, int_eq}
use mistry.Types.{message, error_text, Result, ok, err, err_image_build}
use mistry.Paths.{FilePath, join, render, data_dir}
use mistry.Files.{Files, Node, put_node}
use mistry.System.{Env, Call, T, try, pure, map_error, for_each, external, ◌>>=◌, ◌>>◌}
use mistry.Job.{Config, Job}

-- The error after a deferred action: that of the action comes first.
abbrev pub combine : String → Result (Unit {0}) → Result (Unit {0}) → Result (Unit {0})
combine what (ok _) (ok _) = ok tt
combine what (err e) (ok _) = err e
combine what (ok _) (err d) = err (message (codes what ++ (codes "; " ++ error_text d)))
combine what (err e) (err d) =
    err (message (codes what ++ (codes "; " ++ (error_text d ++ (codes " | " ++ error_text e)))))

-- `defer` of an action that may fail, around the rest of the function.
unfoldable pub deferred : String → T (Unit {0}) → T (Unit {0}) → T (Unit {0})
deferred what last m s =
    let done = m s in let closed = last done.1 in (combine what done.0 closed.0, closed.1)

-- What the container leaves below its data directory.
unfoldable pub write_nodes : FilePath → List (FilePath × Node) → Files → Files
write_nodes base [] fs = fs
write_nodes base ((p, n) ∷ nodes) fs = write_nodes base nodes (put_node (base ++ p) (some n) fs)

-- A read of what the environment has at hand.
abbrev pub current : {A : Type 0} → (ℕ → A) → T A
current f s = (ok (f s.tick), s)

-- The container's writes take place when it starts.
unfoldable pub put_written : FilePath → List (FilePath × Node) → T (Unit {0})
unfolding write_nodes
put_written base nodes s = (ok tt, record s { files = write_nodes base nodes s.files })

module _ (env : Env) (j : Job) where
  -- `BuildImage`; `out` is where the build's output goes.
  unfoldable pub build_image : Str → (Str → T (Unit {0})) → Bool → Bool → T (Unit {0})
  build_image uid out pull_parent no_cache = map_error (err_image_build j.image) (do
    external env (Call.image_build j.image uid pull_parent no_cache) (λ _. tt)
    printed ← current env.output
    out printed
    external env (Call.image_output j.image) (λ _. tt)
    external env (Call.image_inspect j.image) (λ _. tt))

  unfoldable pub rename_all : List Str → T (Unit {0})
  rename_all ids = for_each ids λ id. do
    suffix ← current env.random
    external env (Call.container_rename id (j.container ++ (codes "-renamed-" ++ suffix))) (λ _. tt)

  -- `renameIfExists`
  unfoldable pub rename_if_exists : T (Unit {0})
  unfolding rename_all
  rename_if_exists = do
    ids ← external env (Call.container_list j.container) env.containers
    rename_all ids

  -- The part of `StartContainer` under the deferred removal: the logs, and the exit code.
  unfoldable pub follow_container : (Str → T (Unit {0})) → Str → T (ℤ × Str)
  follow_container out id = do
    external env (Call.container_logs id) (λ _. tt)
    printed ← current env.output
    out printed
    stderr ← external env (Call.container_copy id) env.stderr
    code ← external env (Call.container_inspect id) env.exit_code
    pure (code, stderr)

  -- `StartContainer`, with the text that it wrote to `outErr`.
  unfoldable pub start_container : Config → (Str → T (Unit {0})) → T (ℤ × Str)
  unfolding follow_container put_written rename_if_exists
  start_container cfg out = do
    let data_path = join j.pending_build_path (data_dir ∷ [])
    _ ← try rename_if_exists
    id ←
        external env (Call.container_create j.container j.image (render data_path) cfg.mounts)
          env.created
    written ← external env (Call.container_start id) env.writes
    put_written data_path written
    result ← try (follow_container out id)
    _ ← try (external env (Call.container_remove id) (λ _. tt))
    (λ s. (result, s))

-- ===== src/Rebuild.antt =====
-- cmd/mistryd/server.go: the images of the projects are built anew, and what is unused is pruned.
pub mod Counts
pub mod Built
use Prim.Native.Nat.{◌%◌, ◌^◌}
use mistry.Base.{
  ℕ, suc, ◌+◌, Bool, true, false, Option, none, some, List, [], ◌∷◌, ◌++◌, length, ◌==◌, nat_eq,
  list_eq, if◌then◌else◌,
}
use mistry.Base.Text.{Str, codes, decimal, intercalate}
use mistry.Types.{GoError, Result, ok, err}
use mistry.System.{Env, Call, T, try, pure, external, ◌>>=◌, ◌>>◌}
use mistry.Job.{Config, new_job}
use mistry.Docker.{build_image}
use mistry.Index.{get_projects}

pub record PruneResult : Type 0 where
  pub pruned_images : ℕ
  pub pruned_containers : ℕ
  pub reclaimed_space : ℕ

pub record RebuildResult : Type 0 where
  pub successful : ℕ
  pub failed : List Str
  pub pruned : PruneResult

abbrev pub no_prune : PruneResult
no_prune = record { pruned_images = 0; pruned_containers = 0; reclaimed_space = 0 }

abbrev pub no_rebuild : RebuildResult
no_rebuild = record { successful = 0; failed = []; pruned = no_prune }

-- `RebuildResult.String`, with `units.HumanSize` of a number of bytes.
unfoldable pub rebuild_text : (human_size : ℕ → Str) → RebuildResult → Str
rebuild_text human_size r =
    codes "Rebuilt: "
    ++ (decimal r.successful
        ++ (codes ", Pruned images: "
            ++ (decimal r.pruned.pruned_images
                ++ (codes ", Pruned containers: "
                    ++ (decimal r.pruned.pruned_containers
                        ++ (codes ", Reclaimed: "
                            ++ (human_size r.pruned.reclaimed_space
                                ++ (codes ", Failed: "
                                    ++ (decimal (length r.failed)
                                        ++ (if r.failed == []
                                            then []
                                            else codes ", Failed names: "
                                              ++ intercalate (codes ", ") r.failed))))))))))

-- The error of a prune ends the function, with no result of the prune.
with_pruned : RebuildResult → Result PruneResult → RebuildResult × Option GoError
with_pruned r (ok p) = (record r { pruned = p }, none)
with_pruned r (err e) = (record r { pruned = no_prune }, some e)

module _ (env : Env) where
  -- `dockerPruneUnused`; the sum of the two numbers of bytes is a `uint64`.
  unfoldable pub docker_prune_unused : T PruneResult
  docker_prune_unused = do
    containers ← external env Call.containers_prune env.pruned
    images ← external env Call.images_prune env.pruned
    pure (record {
      pruned_images = length images.0;
      pruned_containers = length containers.0;
      reclaimed_space = (images.1 + containers.1) % 2 ^ 64;
    })

  -- Behind the loop.
  unfoldable pub after_rebuild : RebuildResult × Option GoError → T (RebuildResult × Option GoError)
  unfolding with_pruned
  after_rebuild (r, some e) = pure (r, some e)
  after_rebuild (r, none) = do unused ← try docker_prune_unused; pure (with_pruned r unused)

-- `ioutil.Discard`
abbrev pub discard : Str → T (Unit {0})
discard printed = pure tt

module _ (env : Env) (cfg : Config) where
  -- `if len(projects) == 0 { ... }`
  unfoldable pub chosen : List Str → T (List Str)
  chosen [] = get_projects env cfg
  chosen (p ∷ ps) = pure (p ∷ ps)

  -- One turn of the loop: `NewJob` and, without an error, `BuildImage`. With `verbose` the output of
  -- the build goes to the log, which is not modelled.
  unfoldable pub rebuild_project : Str → T (Unit {0})
  rebuild_project project = do
    j ← new_job env project [] [] (some cfg)
    build_image env j cfg.uid discard true true

  -- What the loop makes of the error of a turn; `rest` is what is left of it.
  rebuilt :
      (stop_err : Bool)
      → Str
      → RebuildResult
      → (RebuildResult → T (RebuildResult × Option GoError))
      → Result (Unit {0})
      → T (RebuildResult × Option GoError)
  rebuilt stop_err project r rest (ok _) = rest (record r { successful = suc r.successful })
  rebuilt false project r rest (err e) = rest (record r { failed = r.failed ++ (project ∷ []) })
  rebuilt true project r rest (err e) =
      pure (record r { failed = r.failed ++ (project ∷ []) }, some e)

  -- The loop; an error that ends the function is returned beside the result so far.
  unfoldable pub rebuild_all : Bool → List Str → RebuildResult → T (RebuildResult × Option GoError)
  unfolding rebuilt
  rebuild_all stop_err [] r = pure (r, none)
  rebuild_all stop_err (p ∷ ps) r = do
    turn ← try (rebuild_project p)
    rebuilt stop_err p r (rebuild_all stop_err ps) turn

  client_ready : Bool → List Str → Result (Unit {0}) → T (RebuildResult × Option GoError)
  unfolding after_rebuild
  client_ready stop_err names (err e) = pure (no_rebuild, some e)
  client_ready stop_err names (ok _) = rebuild_all stop_err names no_rebuild >>= after_rebuild env

  names_ready : Bool → Result (List Str) → T (RebuildResult × Option GoError)
  unfolding client_ready
  names_ready stop_err (err e) = pure (no_rebuild, some e)
  names_ready stop_err (ok names) = do
    client ← try (external env Call.docker_open (λ _. tt))
    client_ready stop_err names client

  -- `RebuildImages`
  unfoldable pub rebuild_images : List Str → Bool → T (RebuildResult × Option GoError)
  unfolding names_ready
  rebuild_images projects stop_err = do names ← try (chosen projects); names_ready stop_err names

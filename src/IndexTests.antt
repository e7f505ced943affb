-- ===== src/IndexTests.antt =====
-- The index and the pruning of cmd/mistryd/server.go on small directories of builds.
use mistry.Base.{◌≡◌, refl, some, none, [], ◌∷◌, true, false, nat_eq, list_eq}
use mistry.Base.Text.{codes}
use mistry.Base.Int.{pos}
use mistry.Types.{is_ok}
use mistry.Files.{Files, dir, put_node, stat, remove_all}
use mistry.Paths.{join}
use mistry.Index.{get_projects, read_dir, Entry, jobs_of, prune_zombie_builds}
use mistry.System.{for_each, syscall}
use mistry.Index.Listings.{jobs_of-present, jobs_of-stale}
use mistry.Index.Pruning.{prune_zombie_builds-keeps}
use mistry.Fixture.{calm, installed, config, pieces, start_state}

abbrev builds : Files
builds = put_node (pieces ("build" ∷ "foo" ∷ "pending" ∷ "z" ∷ [])) (some dir) (
    put_node (pieces ("build" ∷ "foo" ∷ "pending" ∷ [])) (some dir) (
      put_node (pieces ("build" ∷ "foo" ∷ "ready" ∷ "1" ∷ [])) (some dir) (
        put_node (pieces ("build" ∷ "foo" ∷ "ready" ∷ [])) (some dir)
          (put_node (pieces ("build" ∷ "foo" ∷ [])) (some dir) installed))))

abbrev zombie : Entry
zombie = record { name = codes "z"; is_directory = true }

prune_zombie_builds-keeps_example :
    (prune_zombie_builds (calm (pos 0)) (config (calm (pos 0))) (start_state builds)).1.files.node
      (pieces ("build" ∷ "foo" ∷ "ready" ∷ "1" ∷ []))
    ≡ some dir
prune_zombie_builds-keeps_example =
    prune_zombie_builds-keeps (calm (pos 0)) (config (calm (pos 0))) (codes "foo") (codes "ready")
      (codes "1" ∷ []) (start_state builds) refl refl

jobs_of-present_example :
    jobs_of
      (calm (pos 0))
      (config (calm (pos 0)))
      (zombie ∷ [])
      []
      (codes "foo" ∷ [])
      (start_state builds)
    ≡ jobs_of (calm (pos 0)) (config (calm (pos 0))) [] [] (codes "foo" ∷ []) (start_state builds)
unfolding join
jobs_of-present_example =
    jobs_of-present (calm (pos 0)) (λ _. refl) (config (calm (pos 0))) (zombie ∷ []) []
      (codes "foo") [] dir dir (start_state builds) refl refl

jobs_of-stale_example :
    is_ok
      (jobs_of
        (calm (pos 0))
        (config (calm (pos 0)))
        (zombie ∷ [])
        []
        (codes "lost" ∷ [])
        (start_state builds)).0
    ≡ false
unfolding join
jobs_of-stale_example =
    jobs_of-stale (calm (pos 0)) (λ _. refl) (config (calm (pos 0))) zombie [] [] (codes "lost") []
      (start_state builds) refl refl refl

-- The zombie is removed.
pruned :
    (prune_zombie_builds (calm (pos 0)) (config (calm (pos 0))) (start_state builds)).1.files.node
      (pieces ("build" ∷ "foo" ∷ "pending" ∷ "z" ∷ []))
    ≡ none
unfolding prune_zombie_builds get_projects syscall read_dir stat join for_each remove_all
pruned = refl

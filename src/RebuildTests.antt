-- ===== src/RebuildTests.antt =====
-- The command `rebuild` of cmd/mistryd/main.go on an installation with one project.
use mistry.Base.{◌≡◌, refl, false, some, List, [], ◌∷◌, nat_eq, list_eq}
use mistry.Base.Dict.{lookup}
use mistry.Base.Text.{Str, codes, decimal}
use mistry.Types.{ok}
use mistry.Base.Int.{pos}
use mistry.Paths.{FilePath, join}
use mistry.Files.{stat, put_node, file, text}
use mistry.System.{Env, State, T, syscall, external}
use mistry.Job.{Config, new_job}
use mistry.Configuration.{parse_config}
use mistry.Rebuild.{
  rebuild_images, rebuild_text, chosen, rebuild_project, rebuild_all, docker_prune_unused,
}
use mistry.Index.{get_projects, read_dir}
use mistry.Docker.{build_image}
use mistry.Utils.{walk, path_is_dir}
use mistry.Command.{Process, get_file_system, parse_config_from_cli, rebuild_action, exit_of}
use mistry.Command.Rebuilding.{rebuild_action-all, IsComplete}
use mistry.Fixture.{calm, failing_at, installed, pieces, start_state}
use mistry.Rebuild.Built.{opened}
use mistry.Command.Rebuilding.{IsChosen}

abbrev settings : FilePath
settings = pieces ("config.json" ∷ [])

abbrev machine : State
machine = start_state (put_node settings (some (file (text (codes "{}")))) installed)

abbrev process : Process
process = record {
  uid = codes "1000";
  cpus = 4;
  decode = λ node cfg.
      ok (record cfg {
        projects_path = pieces ("projects" ∷ []);
        build_path = pieces ("build" ∷ []);
      });
  show_registry = codes "map[]";
  human_size = λ n. codes "10B";
}

abbrev rebuild_with : Env → T Str
rebuild_with env = rebuild_action env process (codes "plain") settings (codes ":8462") [] false

abbrev shown : Str
shown =
    codes
      "Finished. Rebuilt: 1, Pruned images: 1, Pruned containers: 1, Reclaimed: 10B, Failed: 0\n"

rebuilds : (rebuild_with (calm (pos 0)) machine).0 ≡ ok shown
unfolding rebuild_action parse_config_from_cli get_file_system parse_config path_is_dir syscall stat
    rebuild_images chosen rebuild_project rebuild_all get_projects read_dir new_job walk join
    build_image external docker_prune_unused rebuild_text decimal lookup
rebuilds = refl

rebuild_action-all_example :
    (cfg : Config) × (((parse_config_from_cli
          (calm (pos 0))
          process
          (codes "plain")
          settings
          (codes ":8462")
          machine).0
        ≡ ok cfg)
      × ((names : List Str) × (((chosen
                (calm (pos 0))
                cfg
                []
                (parse_config_from_cli
                  (calm (pos 0))
                  process
                  (codes "plain")
                  settings
                  (codes ":8462")
                  machine).1).0
              ≡ ok names)
            × ((IsChosen cfg
                  (parse_config_from_cli
                    (calm (pos 0))
                    process
                    (codes "plain")
                    settings
                    (codes ":8462")
                    machine).1
                  []
                  names)
                × IsComplete
                    (calm (pos 0))
                    process
                    cfg
                    (opened
                      (calm (pos 0))
                      (chosen
                        (calm (pos 0))
                        cfg
                        []
                        (parse_config_from_cli
                          (calm (pos 0))
                          process
                          (codes "plain")
                          settings
                          (codes ":8462")
                          machine).1).1)
                    names
                    shown))))
rebuild_action-all_example =
    rebuild_action-all (calm (pos 0)) process (codes "plain") settings (codes ":8462") [] false
      machine shown rebuilds

-- Where the image cannot be built, the command prunes all the same and ends with exit code 1.
fails : exit_of {A = Str} (rebuild_with (failing_at 7 (pos 0)) machine).0 ≡ (
  codes
      "Rebuilt: 0, Pruned images: 1, Pruned containers: 1, Reclaimed: 10B, Failed: 1, Failed names: foo\n",
  1,
)
unfolding rebuild_action parse_config_from_cli get_file_system parse_config path_is_dir syscall stat
    rebuild_images chosen rebuild_project rebuild_all get_projects read_dir new_job walk join
    build_image external docker_prune_unused rebuild_text decimal lookup
fails = refl

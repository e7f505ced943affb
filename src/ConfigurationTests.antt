-- ===== src/ConfigurationTests.antt =====
-- A configuration file of cmd/mistryd/config.go with only its two paths.
use mistry.Base.{◌≡◌, ◌≢◌, refl, [], ◌∷◌, arith, nat_eq, list_eq}
use mistry.Base.Text.{codes}
use mistry.Base.Int.{pos}
use mistry.Types.{Result, ok}
use mistry.System.{syscall, plainfs}
use mistry.Files.{stat}
use mistry.Utils.{path_is_dir}
use mistry.Job.{Config}
use mistry.Configuration.{parse_config}
use mistry.Configuration.Laws.{IsReady, parse_config-IsReady}
use mistry.Fixture.{calm, installed, pieces, start_state}
use mistry.Base.Int.{IsInt}
use mathlib.Core.Path.{subst}
use mistry.Base.Int.{double}
use mathlib.Core.Path.{ap}
use mistry.Types.{value_or}
use mistry.Base.Int.{min_int}

abbrev two_paths : Config → Result Config
two_paths cfg =
    ok (record cfg { projects_path = pieces ("projects" ∷ []); build_path = pieces ("build" ∷ []) })

abbrev parsed : Config
parsed = record {
  addr = codes ":8462";
  file_system = plainfs (calm (pos 0));
  uid = codes "1000";
  projects_path = pieces ("projects" ∷ []);
  build_path = pieces ("build" ∷ []);
  mounts = [];
  concurrency = pos 4;
  backlog = pos 8;
}

parses :
    (parse_config
      (calm (pos 0))
      (codes "1000")
      4
      two_paths
      (codes ":8462")
      (plainfs (calm (pos 0)))
      (start_state installed)).0
    ≡ ok parsed
unfolding parse_config path_is_dir syscall stat double
parses = refl

two_paths-IsInt : (d c : Config) → IsInt d.concurrency → two_paths d ≡ ok c → IsInt c.concurrency
two_paths-IsInt d c i h = subst (λ (x : Config). IsInt x.concurrency) (ap (value_or d) h) i

-- The default for the least number of workers wraps around.
wraps : double min_int ≡ pos 0
unfolding double
wraps = refl

parse_config-IsReady_example : IsReady (start_state installed) parsed × (codes ":8462" ≢ [])
parse_config-IsReady_example =
    parse_config-IsReady (calm (pos 0)) (codes "1000") 4 two_paths (codes ":8462")
      (plainfs (calm (pos 0))) parsed (start_state installed) (omega arith) (omega arith)
      two_paths-IsInt (ground arith) parses

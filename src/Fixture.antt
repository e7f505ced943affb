-- ===== src/Fixture.antt =====
-- A small installation on which the tests run: one project, an environment in which nothing fails,
-- and containers that exit with a given code.
use mistry.Base.{ℕ, ◌+◌, none, some, List, [], ◌∷◌, String, if◌then◌else◌, nat_beq}
use mistry.Base.Text.{Str, codes}
use mistry.Base.Int.{ℤ, pos}
use mistry.Types.{new_build_info, Params}
use mistry.Paths.{FilePath}
use mistry.Files.{Files, dir, file, text, put_node}
use mistry.System.{Env, State, plainfs}
use mistry.Job.{Config, Job, job_of}

abbrev pub calm : ℤ → Env
calm code = record {
  fault = λ _. none;
  output = λ _. codes "log";
  stderr = λ _. [];
  exit_code = λ _. code;
  containers = λ _. [];
  created = λ _. codes "c1";
  writes = λ _. (codes "artifacts" ∷ codes "out.txt" ∷ [], file (text (codes "made"))) ∷ [];
  pruned = λ _. (codes "old" ∷ [], 5);
  now = λ t. t + 1000;
  random = λ _. codes "ff";
  sha256 = λ s. 1 ∷ s;
  tar_bytes = λ _ _. [];
}

-- The same, with the call at tick `at` failing.
abbrev pub failing_at : ℕ → ℤ → Env
failing_at at code = record (calm code) {
  fault = λ t. if nat_beq t at then some (codes "no") else none;
}

abbrev pub empty_files : Files
empty_files = record { node = λ _. none; known = [] }

abbrev pub pieces : List String → FilePath
pieces [] = []
pieces (s ∷ ss) = codes s ∷ pieces ss

abbrev pub installed : Files
installed =
    put_node (pieces ("projects" ∷ "foo" ∷ "Dockerfile" ∷ [])) (some (file (text (codes "FROM x"))))
      (put_node (pieces ("projects" ∷ "foo" ∷ [])) (some dir) (
        put_node (pieces ("projects" ∷ [])) (some dir)
          (put_node (pieces ("build" ∷ [])) (some dir) empty_files)))

abbrev pub config : Env → Config
config env = record {
  addr = codes "0.0.0.0:8462";
  file_system = plainfs env;
  uid = codes "1000";
  projects_path = pieces ("projects" ∷ []);
  build_path = pieces ("build" ∷ []);
  mounts = [];
  concurrency = pos 2;
  backlog = pos 4;
}

abbrev pub parameters : Params
parameters = (codes "k", codes "v") ∷ (codes "_opaque", codes "1") ∷ []

abbrev pub foo_job : Str → Job
foo_job group = job_of (λ s. 1 ∷ s) (codes "foo") parameters group (config (calm (pos 0))) [] 1000

abbrev pub start_state : Files → State
start_state fs = record { files = fs; tick = 0; calls = []; info = new_build_info 1000 }

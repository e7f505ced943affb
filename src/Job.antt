-- ===== src/Job.antt =====
-- cmd/mistryd/job.go: a job, its identity and its paths.
pub mod Identity
pub mod Placement
pub mod Json
use Prim.Native.Nat.{◌/◌, ◌%◌}
use mistry.Base.{
  true, ℕ, ◌+◌, Bool, false, Option, none, some, List, [], ◌∷◌, ◌++◌, ◌==◌, nat_eq, list_eq,
  if◌then◌else◌, ltb,
}
use mistry.Base.Dict.{Dict, lookup}
use mistry.Base.Text.{Str, codes, has_prefix, less}
use mistry.Base.Int.{ℤ}
use mistry.Types.{is_ok, GoError, message, is_not_exist, ok, err, Params, BuildInfo, new_build_info}
use mistry.Paths.{FilePath, join, data_dir, build_log_fname, build_info_fname, img_cnt_prefix}
use mistry.Files.{Content, text, json_info, stat, read_file, eval_symlinks}
use mistry.System.{Env, T, FileSystem, try, pure, throw, syscall, get_now, map_error, ◌>>=◌}
use mistry.Utils.{walk}

-- `Config` of config.go; paths are absolute.
pub record Config : Type 0 where
  pub addr : Str
  pub file_system : FileSystem
  pub uid : Str
  pub projects_path : FilePath
  pub build_path : FilePath
  pub mounts : Dict Str Str
  pub concurrency : ℤ
  pub backlog : ℤ

pub record Job : Type 0 where
  pub id : Str
  pub project : Str
  pub params : Params
  pub group : Str
  pub rebuild : Bool
  pub root_build_path : FilePath
  pub pending_build_path : FilePath
  pub ready_build_path : FilePath
  pub latest_build_path : FilePath
  pub ready_data_path : FilePath
  pub project_path : FilePath
  pub build_log_path : FilePath
  pub build_info_file_path : FilePath
  pub image : Str
  pub image_tar : Str
  pub container : Str
  pub started_at : ℕ
  pub build_info : BuildInfo
  pub state : Str

-- `sort.Strings`
insert_key : Str → List Str → List Str
insert_key k [] = k ∷ []
insert_key k (j ∷ ks) = if less j k then j ∷ insert_key k ks else k ∷ j ∷ ks

abbrev is_opaque : Str → Bool
is_opaque k = has_prefix k (codes "_")

-- The keys that count, sorted.
sorted_keys : Params → List Str
unfolding insert_key
sorted_keys [] = []
sorted_keys ((k, v) ∷ params) =
    let keys = sorted_keys params in if is_opaque k then keys else insert_key k keys

-- `params[v]`: the empty text for a missing key.
abbrev value_of : Params → Str → Str
value_of params k = elim (lookup k params) [ none ↦ [] | some v ↦ v ]

seed_of_keys : Params → List Str → Str
seed_of_keys params [] = []
seed_of_keys params (k ∷ ks) = k ++ (value_of params k ++ seed_of_keys params ks)

-- The text whose digest identifies a job.
unfoldable pub seed : Str → Params → Str → Str → Str
unfolding sorted_keys seed_of_keys
seed project params group image_tar =
    project ++ (group ++ (seed_of_keys params (sorted_keys params) ++ image_tar))

abbrev hex_digit : ℕ → ℕ
hex_digit n = if ltb n 10 then b'0' + n else 87 + n

-- `%x` of bytes
hex : Str → Str
hex [] = []
hex (b ∷ bs) = hex_digit (b / 16) ∷ hex_digit (b % 16) ∷ hex bs

abbrev pub build_log_path_of : FilePath → FilePath
build_log_path_of job_path = join job_path (build_log_fname ∷ [])

-- The fields of the job that `NewJob` returns, apart from `Rebuild`, which the caller sets.
unfoldable pub job_of : (sha256 : Str → Str) → Str → Params → Str → Config → Str → ℕ → Job
unfolding hex seed
job_of sha256 project params group cfg image_tar now =
    let root = join cfg.build_path (project ∷ []) in
    let id = hex (sha256 (seed project params group image_tar)) in
    let pending = join root (codes "pending" ∷ id ∷ []) in
    let ready = join root (codes "ready" ∷ id ∷ []) in
    record {
      id = id;
      project = project;
      params = params;
      group = group;
      rebuild = false;
      root_build_path = root;
      pending_build_path = pending;
      ready_build_path = ready;
      latest_build_path =
          if group == []
          then join root (codes "latest" ∷ [])
          else join root (codes "groups" ∷ group ∷ []);
      ready_data_path = join ready (data_dir ∷ []);
      project_path = join cfg.projects_path (project ∷ []);
      build_log_path = build_log_path_of pending;
      build_info_file_path = join pending (build_info_fname ∷ []);
      image = img_cnt_prefix ++ project;
      image_tar = image_tar;
      container = img_cnt_prefix ++ id;
      started_at = now;
      build_info = new_build_info now;
      state = codes "pending";
    }

-- `json.Unmarshal` of a file into a `BuildInfo`.
unfoldable pub decode_info : Content → T BuildInfo
decode_info (text _) = throw (message (codes "invalid character"))
decode_info (json_info i) = pure i

module _ (env : Env) where
  abbrev unknown_project : Str → GoError → GoError
  unknown_project project e =
      if is_not_exist e then message (codes "Unknown project '" ++ (project ++ codes "'")) else e

  -- The bytes of the archive. Its headers hold the modes and the times of the files too, which the
  -- environment knows at each moment.
  abbrev archive : List (FilePath × Content) → T Str
  archive members s = (ok (env.tar_bytes s.tick members), s)

  -- `NewJob`; `none` is a nil configuration.
  unfoldable pub new_job : Str → Params → Str → Option Config → T Job
  new_job project params group none =
      throw (
        message (if project == [] then codes "no project given" else codes "invalid configuration"))
  new_job project params group (some cfg) =
      if project == [] then throw (message (codes "no project given")) else do
        members ←
            map_error (unknown_project project)
              (syscall env (walk (join cfg.projects_path (project ∷ []))))
        now ← get_now env
        image_tar ← archive members
        pure (job_of env.sha256 project params group cfg image_tar now)

  -- `GetState`
  unfoldable pub get_state : FilePath → Str → Str → T Str
  get_state path project id = do
    pending ← try (syscall env (stat (join path (project ∷ codes "pending" ∷ id ∷ []))))
    ready ←
        if is_ok pending
        then pure pending
        else try (syscall env (stat (join path (project ∷ codes "ready" ∷ id ∷ []))))
    if is_ok pending
        then pure (codes "pending")
        else if is_ok ready
        then pure (codes "ready")
        else throw (message (codes "job with id=" ++ (id ++ codes " not found error")))

  -- `CloneSrcPath`; `none` is the empty text: there is nothing to clone.
  unfoldable pub clone_src_path : Job → T (Option FilePath)
  clone_src_path j = if j.group == [] then pure none else do
    resolved ← try (syscall env (eval_symlinks j.latest_build_path))
    pure (elim resolved [ ok p ↦ some p | err _ ↦ none ])

  -- `ReadJobLogs`
  unfoldable pub read_job_logs : FilePath → T Str
  read_job_logs job_path = do
    content ← syscall env (read_file (build_log_path_of job_path))
    pure (elim content [ text s ↦ s | json_info _ ↦ [] ])

  -- `if logs { ... }`
  unfoldable pub with_logs : FilePath → Bool → BuildInfo → T BuildInfo
  with_logs path false info = pure info
  with_logs path true info = do
    log ← read_job_logs path
    pure (record info { container_stdouterr = log })

  -- `ReadJobBuildInfo`
  unfoldable pub read_job_build_info : FilePath → Bool → T BuildInfo
  unfolding read_job_logs decode_info with_logs
  read_job_build_info path logs = do
    content ← syscall env (read_file (join path (build_info_fname ∷ [])))
    info ← decode_info content
    with_logs path logs info

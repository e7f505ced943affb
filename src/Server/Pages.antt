-- ===== src/Server/Pages.antt =====
-- cmd/mistryd/server.go: the index of the jobs and the page of one job.
pub mod Sorting
pub mod Addresses
use mistry.Base.{
  ℕ, ◌+◌, Bool, true, Option, none, some, List, [], ◌∷◌, ◌++◌, ltb, ◌==◌, nat_eq, list_eq,
  if◌then◌else◌,
}
use mistry.Base.Text.{Str, codes, split}
use mistry.Types.{Result, ok, err, BuildInfo}
use mistry.Paths.{slash, join}
use mistry.System.{Env, State, T, pure, ◌>>=◌, ◌>>◌}
use mistry.Job.{Config, get_state, read_job_build_info}
use mistry.Index.{IndexJob, get_jobs}
use mistry.Server.{Response, http_error, plain_status}

-- A job as the handlers show it; `none` is the zero value of a time.
pub record ShownJob : Type 0 where
  pub id : Str
  pub project : Str
  pub started_at : Option ℕ
  pub state : Str
  pub build_info : BuildInfo

-- What the libraries of JSON and of templates, and the files of the binary, give for a job.
pub record Views : Type 0 where
  pub encode_jobs : List IndexJob → Result Str
  pub encode_job : ShownJob → Result Str
  pub page : ShownJob → Result Str

-- An error of a handler is logged and answered with status 500.
abbrev pub or_500 : Result Response × State → Response × State
or_500 (ok r, s) = (r, s)
or_500 (err e, s) = (plain_status 500, s)

abbrev pub ok_body : Str → Response
ok_body body = record { status = 200; body = body }

abbrev pub expected_get : Str → Response
expected_get method = http_error (codes "Expected GET, got " ++ method) 405

abbrev lift_result : {A : Type 0} → Result A → T A
lift_result r s = (r, s)

-- `sort.Slice` by the time of the start, the newest first. It promises no order among equals.
insert_job : IndexJob → List IndexJob → List IndexJob
insert_job j [] = j ∷ []
insert_job j (k ∷ ks) =
    let rest = insert_job j ks in if ltb j.started_at k.started_at then k ∷ rest else j ∷ k ∷ ks

unfoldable pub newest_first : List IndexJob → List IndexJob
unfolding insert_job
newest_first [] = []
newest_first (j ∷ js) = insert_job j (newest_first js)

-- `strings.Split(r.URL.Path, "/")` of four pieces: the last two.
three_more : List Str → Option (Str × Str)
three_more [] = none
three_more (a ∷ []) = none
three_more (a ∷ project ∷ []) = none
three_more (a ∷ project ∷ id ∷ []) = some (project, id)
three_more (a ∷ project ∷ id ∷ b ∷ rest) = none

last_two : List Str → Option (Str × Str)
unfolding three_more
last_two [] = none
last_two (a ∷ rest) = three_more rest

unfoldable pub job_in_path : Str → Option (Str × Str)
unfolding last_two
job_in_path path = last_two (split path slash)

module _ (env : Env) (cfg : Config) (views : Views) where
  -- `HandleIndex`
  unfoldable pub index_body : T Response
  index_body = do
    jobs ← get_jobs env cfg
    body ← lift_result (views.encode_jobs (newest_first jobs))
    pure (ok_body body)

  unfoldable pub handle_index : Str → State → Response × State
  handle_index method s =
      if method == codes "GET" then or_500 (index_body s) else (expected_get method, s)

  -- The part of `HandleShowJob` that finds the job; `StartedAt` is not set.
  unfoldable pub find_job : Str → Str → T ShownJob
  find_job project id = do
    state ← get_state env cfg.build_path project id
    info ← read_job_build_info env (join cfg.build_path (project ∷ state ∷ id ∷ [])) true
    pure
        (record { id = id; project = project; started_at = none; state = state; build_info = info })

  unfoldable pub show_body : (as_json : Bool) → Str → Str → T Response
  show_body as_json project id = do
    job ← find_job project id
    body ← lift_result (if as_json then views.encode_job job else views.page job)
    pure (ok_body body)

  show_found : Bool → Option (Str × Str) → State → Response × State
  show_found as_json none s = (plain_status 400, s)
  show_found as_json (some (project, id)) s = or_500 (show_body as_json project id s)

  -- `HandleShowJob`; `as_json` says whether the request has the content type of JSON.
  unfoldable pub handle_show_job : Str → Str → Bool → State → Response × State
  unfolding show_found
  handle_show_job method path as_json s =
      if method == codes "GET"
      then show_found as_json (job_in_path path) s
      else (expected_get method, s)

-- ===== src/Server/Pages/Addresses.antt =====
-- The URL of a build (getJobURL of cmd/mistryd/server.go) is the path of its page and of its log.
use mistry.Base.{
  ℕ, suc, ◌+◌, ◌≡◌, refl, Bool, true, false, none, some, [], ◌∷◌, ◌++◌, arith, contains, nat_eq,
  list_eq, if◌then◌else◌,
}
use mistry.Base.Text.{Str, codes}
use mistry.Types.{Result, ok, err, BuildInfo}
use mistry.Paths.{FilePath, slash, join}
use mistry.System.{Env, State, pure, ◌>>=◌, syscall}
use mistry.Job.{Config, get_state, read_job_build_info, Job}
use mistry.Server.{Response, plain_status}
use mistry.Server.Pages.{
  ShownJob, Views, or_500, ok_body, job_in_path, last_two, three_more, find_job, show_body,
  show_found, handle_show_job, lift_result,
}
use mistry.Base.Split.{split-append, split-whole}
use mistry.Worker.Bootstrap.{get_job_url}
use mistry.Worker.Cache.{Quiet, Stored}
use mistry.Files.{Node, stat, follow, read_file}

-- A path `/<a>/<project>/<id>` names the project and the id.
pub job_in_path-slashes :
    (a project id : Str)
    → contains a slash ≡ false
    → contains project slash ≡ false
    → contains id slash ≡ false
    → job_in_path (slash ∷ (a ++ (slash ∷ (project ++ (slash ∷ id))))) ≡ some (project, id)
unfolding job_in_path last_two three_more
job_in_path-slashes a project id h k l =
    rw
      (
        split-append [] (a ++ (slash ∷ (project ++ (slash ∷ id)))) slash refl,
        split-append a (project ++ (slash ∷ id)) slash h,
        split-append project id slash k,
        split-whole id slash l,
      )
      refl

-- The URL of a job names its project and its id.
pub job_in_path-get_job_url :
    (j : Job)
    → contains j.project slash ≡ false
    → contains j.id slash ≡ false
    → job_in_path (slash ∷ get_job_url j) ≡ some (j.project, j.id)
job_in_path-get_job_url j h k = job_in_path-slashes (codes "job") j.project j.id refl h k

module _ (env : Env) (quiet : Quiet env) (cfg : Config) (views : Views) (project id : Str)
    (s : State) where
  abbrev pub pending_build : FilePath
  pending_build = join cfg.build_path (project ∷ codes "pending" ∷ id ∷ [])

  abbrev pub ready_build : FilePath
  ready_build = join cfg.build_path (project ∷ codes "ready" ∷ id ∷ [])

  abbrev pub ticked : ℕ → State
  ticked n = record s { tick = n + s.tick }

  get_state-ready :
      (n : Node)
      → follow s.files pending_build ≡ none
      → follow s.files ready_build ≡ some n
      → get_state env cfg.build_path project id s ≡ (ok (codes "ready"), ticked 2)
  unfolding get_state syscall stat
  get_state-ready n h k = ground (arith, quiet s.tick, quiet (suc s.tick), h, k)

  pub get_state-pending :
      (n : Node)
      → follow s.files pending_build ≡ some n
      → get_state env cfg.build_path project id s ≡ (ok (codes "pending"), ticked 1)
  unfolding get_state syscall stat
  get_state-pending n h = ground (arith, quiet s.tick, h)

  module _ (bi : BuildInfo) (log : Str) (st : Stored s.files ready_build bi log) where
    shown : ShownJob
    shown = record {
      id = id;
      project = project;
      started_at = none;
      state = codes "ready";
      build_info = record bi { container_stdouterr = log };
    }

    read-ready :
        read_job_build_info env ready_build true (ticked 2)
        ≡ (ok (record bi { container_stdouterr = log }), ticked 4)
    unfolding read_job_build_info syscall read_file
    read-ready =
        ground (arith, quiet (suc (suc s.tick)), quiet (suc (suc (suc s.tick))), st.info, st.logs)

    find_job-ready :
        follow s.files pending_build ≡ none
        → find_job env cfg views project id s ≡ (ok shown, ticked 4)
    unfolding find_job shown
    find_job-ready h = rw (get_state-ready st.here h st.found, read-ready) refl

-- How a handler answers with what the encoding of a job gave.
abbrev pub answer_of : Result Str → Response
answer_of (ok body) = ok_body body
answer_of (err e) = plain_status 500

or_500-answer :
    (r : Result Str) (s : State)
    → (or_500 ((lift_result r >>= λ body. pure (ok_body body)) s)).0 ≡ answer_of r
or_500-answer (ok body) s = refl
or_500-answer (err e) s = refl

-- What is shown of a build that is done.
abbrev pub shown_build : Job → BuildInfo → Str → ShownJob
shown_build j bi log = record {
  id = j.id;
  project = j.project;
  started_at = none;
  state = codes "ready";
  build_info = record bi { container_stdouterr = log };
}

-- Where no call fails: for a job whose project and id have no slash, if its ready directory holds a
-- build with an info and a log and it has no pending directory, then a request for the URL of the job
-- is answered with the view of just this job, in the state ready, with its info and its log, and
-- without the time at which it started.
pub handle_show_job-get_job_url :
    (env : Env) (quiet : Quiet env) (cfg : Config) (views : Views) (j : Job) (bi : BuildInfo)
    (log : Str) (as_json : Bool) (s : State)
    → contains j.project slash ≡ false
    → contains j.id slash ≡ false
    → follow s.files (join cfg.build_path (j.project ∷ codes "pending" ∷ j.id ∷ [])) ≡ none
    → Stored s.files (join cfg.build_path (j.project ∷ codes "ready" ∷ j.id ∷ [])) bi log
    → (handle_show_job env cfg views (codes "GET") (slash ∷ get_job_url j) as_json s).0
      ≡ answer_of (
          if as_json
          then views.encode_job (shown_build j bi log)
          else views.page (shown_build j bi log))
unfolding handle_show_job show_found show_body shown
handle_show_job-get_job_url env quiet cfg views j bi log as_json s p i h st =
    rw
      (
        job_in_path-get_job_url j p i,
        find_job-ready env quiet cfg views j.project j.id s bi log st h,
      )
      (or_500-answer
        (if as_json
          then views.encode_job (shown_build j bi log)
          else views.page (shown_build j bi log))
        _)

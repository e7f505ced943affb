-- ===== src/Server.antt =====
-- cmd/mistryd/server.go: how a request for a new job is answered.
pub mod Answers
pub mod Pages
pub mod Push
use mistry.Base.{ℕ, ◌+◌, Bool, true, false, Option, none, some, [], ◌++◌, ◌==◌, nat_eq, list_eq}
use mistry.Base.Text.{Str, codes}
use mistry.Types.{Result, ok, err, error_text, BuildInfo, JobRequest}
use mistry.System.{Env, State}
use mistry.Job.{Config, Job, new_job}
use mistry.Worker.{WorkResult}
use mistry.WorkerPool.{WorkerPool, send_work}

-- What a handler writes: the status and the body.
pub record Response : Type 0 where
  pub status : ℕ
  pub body : Str

-- A request to /jobs; `body` is what reading it gives.
pub record Request : Type 0 where
  pub method : Str
  pub body : Result Str
  pub async : Bool

-- The encodings of the library `encoding/json` and of the package `fmt`.
pub record Formats : Type 0 where
  pub decode : Str → Result JobRequest
  pub encode : Option BuildInfo → Str
  pub show_request : JobRequest → Str
  pub show_job : Job → Str

-- The handler answers at once, or after `Wait` on the channel of the job, or panics.
pub data Reply : Type 0 where
  now : Response → Reply
  waits : ℕ → Job → Reply
  panics : Reply

abbrev pub Pool : Type 0
Pool = WorkerPool Job WorkResult

-- `http.Error`
abbrev pub http_error : Str → ℕ → Response
http_error s code = record { status = code; body = s ++ codes "\n" }

abbrev pub plain_status : ℕ → Response
plain_status code = record { status = code; body = [] }

module _ (f : Formats) where
  -- `writeWorkResult`
  unfoldable pub write_work_result : Job → WorkResult → Response
  write_work_result j r = elim r.error [
    | some e ↦
        http_error (codes "Error building " ++ (f.show_job j ++ (codes ": " ++ error_text e))) 500
    | none ↦ record { status = 201; body = f.encode r.build_info }
  ]

  -- From the pool's answer on.
  unfoldable pub sent_reply : Bool → Job → Pool → Option (Pool × Result ℕ) → Reply × Pool
  sent_reply async j pool none = (panics, pool)
  sent_reply async j pool (some (after, err e)) = (now (plain_status 503), after)
  sent_reply true j pool (some (after, ok c)) = (now (plain_status 201), after)
  sent_reply false j pool (some (after, ok c)) = (waits c j, after)

  made_reply : Bool → JobRequest → Pool → Result Job → Reply × Pool
  made_reply async jr pool (err e) = (
    now (
        http_error
          (codes "Error creating new job " ++ (f.show_request jr ++ (codes ": " ++ error_text e)))
          500),
    pool,
  )
  made_reply async jr pool (ok j) =
      let job : Job = record j { rebuild = jr.rebuild } in
      sent_reply async job pool (send_work job pool)

  -- The parts of `HandleNewJob` that follow the reading of the body, with the state after NewJob.
  decoded_reply :
      Env → Config → Bool → Str → Pool → Result JobRequest → State → (Reply × Pool) × State
  unfolding made_reply
  decoded_reply env cfg async body pool (err e) s = (
    (
      now (
          http_error
            (codes "Error unmarshalling body '" ++ (body ++ (codes "' to Job: " ++ error_text e)))
            400),
      pool,
    ),
    s,
  )
  decoded_reply env cfg async body pool (ok jr) s =
      let made = new_job env jr.project jr.params jr.group (some cfg) s in
      (made_reply async jr pool made.0, made.1)

  read_reply : Env → Config → Bool → Pool → Result Str → State → (Reply × Pool) × State
  unfolding decoded_reply
  read_reply env cfg async pool (err e) s =
      ((now (http_error (codes "Error reading request body: " ++ error_text e) 400), pool), s)
  read_reply env cfg async pool (ok body) s =
      decoded_reply env cfg async body pool (f.decode body) s

  method_reply : (is_post : Bool) → Env → Config → Request → Pool → State → (Reply × Pool) × State
  unfolding read_reply
  method_reply true env cfg r pool s = read_reply env cfg r.async pool r.body s
  method_reply false env cfg r pool s =
      ((now (http_error (codes "Expected POST, got " ++ r.method) 405), pool), s)

  -- `HandleNewJob`
  unfoldable pub handle_new_job : Env → Config → Request → Pool → State → (Reply × Pool) × State
  unfolding method_reply
  handle_new_job env cfg r pool s = method_reply (r.method == codes "POST") env cfg r pool s

-- ===== src/Server/Answers.antt =====
-- What the answers of HandleNewJob (cmd/mistryd/server.go) tell: of the pool, and to the client.
use mistry.Base.{
  length, count_if, refl, none, ℕ, ◌≡◌, Bool, true, false, Option, some, arith, ◌==◌, nat_eq,
  list_eq,
}
use mistry.Types.{GoError, Result, ok, err, JobRequest}
use mistry.WorkerPool.Invariant.{is_parked, new-IsSound}
use mistry.WorkerPool.Runs.{Reach-keeps, send_work-IsSent}
use mistry.Server.{
  now, plain_status, method_reply, made_reply, decoded_reply, read_reply, handle_new_job, Request,
  Formats, waits, Pool, write_work_result, sent_reply,
}
use mistry.Base.Text.{Str, codes}
use mathlib.Core.Path.{subst}
use mistry.System.{Env, State}
use mistry.Job.{Config, Job}
use mistry.Worker.{WorkResult}
use mistry.WorkerPool.{send_work, new_worker_pool, Reach, wait}
use mistry.WorkerPool.Promises.{wait-result}
use mistry.Client.Action.{Outside, good, bad, accept_response, not_scheduled}

module _ (f : Formats) where
  -- The client takes the body of the server's answer to a build for its result exactly if `Work`
  -- returned no error, and otherwise fails with status 500 and the body.
  pub accept_response-write_work_result :
      (o : Outside) (j : Job) (r : WorkResult)
      → accept_response o (write_work_result f j r).status (write_work_result f j r).body
        ≡ (elim r.error [
          | none ↦ good (f.encode r.build_info)
          | some e ↦ bad (not_scheduled 500 (write_work_result f j r).body)
        ])
  unfolding accept_response write_work_result
  accept_response-write_work_result o j r = ground arith

  -- A reply that waits comes from a job that the pool accepted.
  sent_reply-waits :
      (async : Bool) (j k : Job) (p q : Pool) (c : ℕ) (sent : Option (Pool × Result ℕ))
      → sent_reply f async j p sent ≡ (waits c k, q)
      → (sent ≡ some (q, ok c)) × (j ≡ k)
  unfolding sent_reply
  sent_reply-waits async j k p q c none h = cc
  sent_reply-waits async j k p q c (some (after, err e)) h = cc
  sent_reply-waits true j k p q c (some (after, ok d)) h = cc
  sent_reply-waits false j k p q c (some (after, ok d)) h = ground arith

  made_reply-waits :
      (async : Bool) (jr : JobRequest) (p q : Pool) (made : Result Job) (c : ℕ) (j : Job)
      → made_reply f async jr p made ≡ (waits c j, q)
      → send_work j p ≡ some (q, ok c)
  unfolding made_reply
  made_reply-waits async jr p q (err e) c j h = cc
  made_reply-waits async jr p q (ok k) c j h =
      let got =
        sent_reply-waits async _ j p q c (send_work (record k { rebuild = jr.rebuild }) p) h in
      subst (λ job. send_work job p ≡ some (q, ok c)) got.1 got.0

  decoded_reply-waits :
      (env : Env) (cfg : Config) (async : Bool) (body : Str) (p q : Pool) (jr : Result JobRequest)
      (s : State) (c : ℕ) (j : Job)
      → (decoded_reply f env cfg async body p jr s).0 ≡ (waits c j, q)
      → send_work j p ≡ some (q, ok c)
  unfolding decoded_reply
  decoded_reply-waits env cfg async body p q (err e) s c j h = cc
  decoded_reply-waits env cfg async body p q (ok jr) s c j h = made_reply-waits async jr p q _ c j h

  read_reply-waits :
      (env : Env) (cfg : Config) (async : Bool) (p q : Pool) (body : Result Str) (s : State) (c : ℕ)
      (j : Job)
      → (read_reply f env cfg async p body s).0 ≡ (waits c j, q)
      → send_work j p ≡ some (q, ok c)
  unfolding read_reply
  read_reply-waits env cfg async p q (err e) s c j h = cc
  read_reply-waits env cfg async p q (ok body) s c j h =
      decoded_reply-waits env cfg async body p q _ s c j h

  method_reply-waits :
      (is_post : Bool) (env : Env) (cfg : Config) (r : Request) (p q : Pool) (s : State) (c : ℕ)
      (j : Job)
      → (method_reply f is_post env cfg r p s).0 ≡ (waits c j, q)
      → send_work j p ≡ some (q, ok c)
  unfolding method_reply
  method_reply-waits true env cfg r p q s c j h =
      read_reply-waits env cfg r.async p q r.body s c j h
  method_reply-waits false env cfg r p q s c j h = cc

  -- If the handler waits for a job, at a pool in some state of a run, then a result that it reads
  -- later from the job's channel is one that `Work` can return for this job.
  pub handle_new_job-result :
      (Works : Job → WorkResult → Type 0) (concurrency backlog : ℕ) (env : Env) (cfg : Config)
      (r : Request) (p q later : Pool) (s : State) (c : ℕ) (j : Job) (result : WorkResult)
      → Reach Works (new_worker_pool concurrency backlog) p
      → (handle_new_job f env cfg r p s).0 ≡ (waits c j, q)
      → Reach Works q later
      → wait c later ≡ some result
      → Works j result
  unfolding handle_new_job
  handle_new_job-result Works concurrency backlog env cfg r p q later s c j result before h =
      wait-result Works concurrency backlog p q later j c result before
        (method_reply-waits (r.method == codes "POST") env cfg r p q s c j h)

  -- The pool refused some job.
  abbrev Refused : Pool → Type 0
  Refused p = (j : Job) × ((after : Pool) × ((e : GoError) × (send_work j p ≡ some (after, err e))))

  sent_reply-overloaded :
      (async : Bool) (j : Job) (p : Pool) (sent : Option (Pool × Result ℕ))
      → (sent_reply f async j p sent).0 ≡ now (plain_status 503)
      → (after : Pool) × ((e : GoError) × (sent ≡ some (after, err e)))
  unfolding sent_reply
  sent_reply-overloaded async j p none h = absurd cc
  sent_reply-overloaded async j p (some (after, err e)) h = (after, (e, refl))
  sent_reply-overloaded true j p (some (after, ok d)) h = absurd (ground arith)
  sent_reply-overloaded false j p (some (after, ok d)) h = absurd cc

  made_reply-overloaded :
      (async : Bool) (jr : JobRequest) (p : Pool) (made : Result Job)
      → (made_reply f async jr p made).0 ≡ now (plain_status 503)
      → Refused p
  unfolding made_reply
  made_reply-overloaded async jr p (err e) h = absurd (ground arith)
  made_reply-overloaded async jr p (ok k) h =
      let job : Job = record k { rebuild = jr.rebuild } in
      (job, sent_reply-overloaded async job p (send_work job p) h)

  decoded_reply-overloaded :
      (env : Env) (cfg : Config) (async : Bool) (body : Str) (p : Pool) (jr : Result JobRequest)
      (s : State)
      → (decoded_reply f env cfg async body p jr s).0.0 ≡ now (plain_status 503)
      → Refused p
  unfolding decoded_reply
  decoded_reply-overloaded env cfg async body p (err e) s h = absurd (ground arith)
  decoded_reply-overloaded env cfg async body p (ok jr) s h = made_reply-overloaded async jr p _ h

  read_reply-overloaded :
      (env : Env) (cfg : Config) (async : Bool) (p : Pool) (body : Result Str) (s : State)
      → (read_reply f env cfg async p body s).0.0 ≡ now (plain_status 503)
      → Refused p
  unfolding read_reply
  read_reply-overloaded env cfg async p (err e) s h = absurd (ground arith)
  read_reply-overloaded env cfg async p (ok body) s h =
      decoded_reply-overloaded env cfg async body p _ s h

  method_reply-overloaded :
      (is_post : Bool) (env : Env) (cfg : Config) (r : Request) (p : Pool) (s : State)
      → (method_reply f is_post env cfg r p s).0.0 ≡ now (plain_status 503)
      → Refused p
  unfolding method_reply
  method_reply-overloaded true env cfg r p s h = read_reply-overloaded env cfg r.async p r.body s h
  method_reply-overloaded false env cfg r p s h = absurd (ground arith)

  -- If the handler answers 503, at a pool in some state of a run, then the queue holds as many
  -- items as the backlog and no worker is parked.
  pub handle_new_job-overloaded :
      (Works : Job → WorkResult → Type 0) (concurrency backlog : ℕ) (env : Env) (cfg : Config)
      (r : Request) (p : Pool) (s : State)
      → Reach Works (new_worker_pool concurrency backlog) p
      → (handle_new_job f env cfg r p s).0.0 ≡ now (plain_status 503)
      → (length p.queue ≡ p.backlog_size) × (count_if is_parked p.workers ≡ 0)
  unfolding handle_new_job
  handle_new_job-overloaded Works concurrency backlog env cfg r p s before h =
      let refused = method_reply-overloaded (r.method == codes "POST") env cfg r p s h in
      let sound = (Reach-keeps Works before (new-IsSound concurrency backlog)).0 in
      let answered =
        (send_work-IsSent p refused.1.0 refused.0 (err refused.1.1.0) sound
          refused.1.1.1).answered in
      (omega (arith, sound.bounded, answered.1), answered.2)

-- ===== src/ServerTests.antt =====
-- A request for a job of cmd/mistryd/server.go, from its arrival to its result.
use mistry.Base.{length, count_if, ◌≡◌, refl, some, none, [], ◌∷◌, true, false, nat_eq, list_eq}
use mistry.WorkerPool.{
  send, WorkItem, parked, receiving, busy, new_worker_pool, Reach, here, next, take, finish,
  receive, write_result, wait, send_work, hand_over,
}
use mistry.WorkerPool.Invariant.{is_parked}
use mistry.Server.{
  plain_status, Request, Formats, Pool, handle_new_job, waits, Reply, now, panics, sent_reply,
  write_work_result,
}
use mistry.Server.Answers.{
  handle_new_job-overloaded, handle_new_job-result, accept_response-write_work_result,
}
use mistry.Base.Text.{codes}
use mistry.Base.Int.{pos}
use mistry.Base.Dict.{lookup}
use mistry.Types.{ok, new_build_info}
use mistry.Job.{Job, new_job}
use mistry.Worker.{WorkResult}
use mistry.System.{syscall}
use mistry.Utils.{walk}
use mistry.Paths.{join}
use mistry.Client.Action.{accept_response, good}
use mistry.ClientTests.{obliging}
use mistry.Fixture.{calm, installed, config, start_state, parameters, foo_job}

abbrev formats : Formats
formats = record {
  decode = λ body.
      ok (record { project = codes "foo"; params = parameters; group = []; rebuild = true });
  encode = λ info. codes "{}";
  show_request = λ jr. jr.project;
  show_job = λ j. j.id;
}

abbrev request : Request
request = record { method = codes "POST"; body = ok (codes "{}"); async = false }

-- `Work` returns no error.
abbrev Succeeds : Job → WorkResult → Type 0
Succeeds j r = r.error ≡ none

abbrev idle_pool : Pool
idle_pool = record (new_worker_pool 1 1) { workers = parked ∷ [] }

abbrev job_in : Reply → Job
job_in (waits c j) = j
job_in (now r) = foo_job []
job_in panics = foo_job []

asked : Job
asked =
    job_in
      (handle_new_job formats (calm (pos 0)) (config (calm (pos 0))) request idle_pool
        (start_state installed)).0.0

abbrev asked_item : WorkItem Job
asked_item = record { job = asked; result = 0 }

abbrev built_result : WorkResult
built_result = record { build_info = some (new_build_info 0); error = none }

abbrev working_pool : Pool
working_pool = record idle_pool { workers = busy asked_item ∷ []; channels = 1 }

abbrev done_pool : Pool
done_pool = record working_pool { workers = receiving ∷ []; results = (0, built_result) ∷ [] }

idle : Reach Succeeds (new_worker_pool 1 1) idle_pool
unfolding receive
idle = next here (take (new_worker_pool 1 1) [] [] receiving parked [] refl refl)

answered :
    (handle_new_job formats
      (calm (pos 0))
      (config (calm (pos 0)))
      request
      idle_pool
      (start_state installed)).0
    ≡ (waits 0 asked, working_pool)
unfolding handle_new_job asked new_job syscall walk join sent_reply send_work hand_over
answered = refl

finished : Reach Succeeds working_pool done_pool
unfolding write_result lookup
finished =
    next here
      (finish working_pool [] [] asked_item built_result ((0, built_result) ∷ []) refl refl refl)

handle_new_job-result_example : Succeeds asked built_result
unfolding wait lookup
handle_new_job-result_example =
    handle_new_job-result formats Succeeds 1 1 (calm (pos 0)) (config (calm (pos 0))) request
      idle_pool working_pool done_pool (start_state installed) 0 asked built_result idle answered
      finished refl

accept_response-write_work_result_example :
    accept_response obliging
      (write_work_result formats (foo_job []) built_result).status
      (write_work_result formats (foo_job []) built_result).body
    ≡ good (codes "{}")
accept_response-write_work_result_example =
    accept_response-write_work_result formats obliging (foo_job []) built_result

abbrev busy_pool : Pool
busy_pool = record working_pool { queue = record { job = asked; result = 1 } ∷ []; channels = 2 }

first_sent : send_work asked idle_pool ≡ some (working_pool, ok 0)
unfolding send_work hand_over
first_sent = refl

second_sent : send_work asked working_pool ≡ some (busy_pool, ok 1)
unfolding send_work hand_over
second_sent = refl

filled : Reach Succeeds (new_worker_pool 1 1) busy_pool
filled =
    next (next idle (send idle_pool working_pool asked (ok 0) first_sent))
      (send working_pool busy_pool asked (ok 1) second_sent)

rejected :
    (handle_new_job formats
      (calm (pos 0))
      (config (calm (pos 0)))
      request
      busy_pool
      (start_state installed)).0.0
    ≡ now (plain_status 503)
unfolding handle_new_job new_job syscall walk join sent_reply send_work hand_over
rejected = refl

handle_new_job-overloaded_example :
    (length busy_pool.queue ≡ busy_pool.backlog_size) × (count_if is_parked busy_pool.workers ≡ 0)
handle_new_job-overloaded_example =
    handle_new_job-overloaded formats Succeeds 1 1 (calm (pos 0)) (config (calm (pos 0))) request
      busy_pool (start_state installed) filled rejected

-- ===== src/PagesTests.antt =====
-- Requests to the pages of cmd/mistryd/server.go on a small directory of builds.
use mistry.Base.{◌≡◌, refl, true, false, none, some, List, [], ◌∷◌, ◌++◌, nat_eq, list_eq, String}
use mistry.Base.Dict.{lookup}
use mistry.Base.Text.{codes, split}
use mistry.Types.{ok, new_build_info}
use mathlib.Core.Path.{ap}
use mistry.Base.Int.{pos}
use mistry.Paths.{FilePath, slash, join}
use mistry.System.{Env, State, syscall}
use mistry.Job.{Job, job_of, Config, get_state, read_job_build_info}
use mistry.Server.{plain_status}
use mistry.Broker.{
  Client, Broker, add_client, new_broker, start, listen_for_clients, Arrival, notified,
  remove_client,
}
use mistry.Index.{IndexJob, get_jobs, jobs_of, list_jobs, index_jobs, read_dir}
use mistry.Files.{Files, dir, file, text, json_info, put_node, stat, read_file, follow}
use mistry.Worker.Bootstrap.{get_job_url}
use mistry.Worker.Cache.{Stored}
use mistry.Fixture.{calm, config, pieces, installed, start_state, foo_job}
use mistry.Server.Pages.{
  Views, handle_index, index_body, newest_first, handle_show_job, ok_body, job_in_path,
}
use mistry.Server.Pages.Sorting.{handle_index-IsIndex, IsIndex}
use mistry.Server.Pages.Addresses.{handle_show_job-get_job_url}
use mistry.Server.Push.{answers, streams, handle_server_push, body_for}
use mistry.Server.Push.Delivery.{handle_server_push-body}
use mistry.Index.Described.{keys_of}
use mistry.Base.{All}
use mistry.Base.{map}
use mistry.Index.Described.{key_of}
use mistry.Index.Described.{projects_in}
use mistry.Index.Described.{HasBoth}
use mistry.Index.Described.{IsShown}
use mistry.Server.Push.States.{handle_server_push-reply}

abbrev views : Views
views = record {
  encode_jobs = λ jobs. ok (elim jobs [ [] ↦ codes "none" | ◌∷◌ j js ↦ j.id ]);
  encode_job = λ j. ok j.id;
  page = λ j. ok (j.project ++ j.build_info.container_stdouterr);
}

abbrev quiet_env : Env
quiet_env = calm (pos 0)

abbrev cfg : Config
cfg = config quiet_env

abbrev at_build : List String → FilePath
at_build rest = pieces ("build" ∷ "foo" ∷ rest)

abbrev ready_files : Files
ready_files =
    put_node (at_build ("ready" ∷ "1" ∷ "out.log" ∷ [])) (some (file (text (codes "log")))) (
      put_node (at_build ("ready" ∷ "1" ∷ "build_info.json" ∷ []))
        (some (file (json_info (new_build_info 7))))
        (put_node (at_build ("ready" ∷ "1" ∷ [])) (some dir) (
          put_node (at_build ("ready" ∷ [])) (some dir)
            (put_node (at_build []) (some dir) installed))))

abbrev ready_state : State
ready_state = start_state ready_files

abbrev one_job : Job
one_job = record (foo_job []) { id = codes "1" }

-- A second job, which started later, is pending.
abbrev both_files : Files
both_files =
    put_node (at_build ("pending" ∷ "2" ∷ "build_info.json" ∷ []))
      (some (file (json_info (new_build_info 9))))
      (put_node (at_build ("pending" ∷ "2" ∷ [])) (some dir)
        (put_node (at_build ("pending" ∷ [])) (some dir) ready_files))

abbrev both_state : State
both_state = start_state both_files

index_answers : (handle_index quiet_env cfg views (codes "GET") both_state).0 ≡ ok_body (codes "2")
unfolding handle_index index_body get_jobs jobs_of list_jobs index_jobs read_dir join
    read_job_build_info syscall stat read_file newest_first
index_answers = refl

has_both : All (HasBoth cfg both_files) (projects_in cfg both_files)
unfolding read_dir join
has_both = ((refl, refl), tt)

listed :
    keys_of cfg both_files (projects_in cfg both_files)
    ≡ (codes "foo", (codes "pending", codes "2")) ∷ (codes "foo", (codes "ready", codes "1")) ∷ []
unfolding read_dir join
listed = refl

handle_index-IsIndex_example :
    (codes "GET" ≡ codes "GET")
    × ((jobs : List IndexJob) × ((map key_of jobs
            ≡ keys_of cfg both_files (projects_in cfg both_files))
          × (All (IsShown cfg both_files) jobs
              × IsIndex views jobs
                  (handle_index quiet_env cfg views (codes "GET") both_state).0.body)))
handle_index-IsIndex_example =
    handle_index-IsIndex quiet_env cfg views (codes "GET") both_state has_both
      (ap (λ r. r.status) index_answers)

Stored-one :
    Stored ready_files
      (join cfg.build_path (codes "foo" ∷ codes "ready" ∷ codes "1" ∷ []))
      (new_build_info 7)
      (codes "log")
unfolding join
Stored-one = record { here = dir; found = refl; info = refl; logs = refl }

not_pending :
    follow ready_files (join cfg.build_path (codes "foo" ∷ codes "pending" ∷ codes "1" ∷ [])) ≡ none
unfolding join
not_pending = refl

handle_show_job-get_job_url_example :
    (handle_show_job quiet_env cfg views
      (codes "GET")
      (slash ∷ get_job_url one_job)
      false
      ready_state).0
    ≡ ok_body (codes "foolog")
unfolding job_of
handle_show_job-get_job_url_example =
    handle_show_job-get_job_url quiet_env (λ _. refl) cfg views one_job (new_build_info 7)
      (codes "log") false ready_state refl refl not_pending Stored-one

abbrev pending_state : State
pending_state = start_state (put_node (at_build ("pending" ∷ "1" ∷ [])) (some dir) ready_files)

abbrev follower : Client
follower = record { pointer = 3; id = codes "1"; extra = codes "/build/foo/pending/1/out.log" }

abbrev followed : Broker
followed = add_client follower new_broker

push_streams :
    (handle_server_push quiet_env cfg
      (codes "GET")
      (codes "/log/foo/1")
      true
      3
      new_broker
      pending_state).0
    ≡ (streams follower, followed)
unfolding handle_server_push job_in_path split get_state syscall stat join
push_streams = refl

handle_server_push-reply_example :
    (handle_server_push quiet_env cfg
      (codes "GET")
      (codes "/log/foo/1")
      true
      3
      new_broker
      pending_state).0
    ≡ (streams follower, followed)
unfolding join
handle_server_push-reply_example =
    handle_server_push-reply quiet_env (λ t. refl) cfg (codes "foo") (codes "1") true 3 new_broker
      pending_state (codes "log") refl refl refl

abbrev heard : List Arrival
heard = notified (codes "1") (codes "a") ∷ notified (codes "2") (codes "b") ∷ []

abbrev unheard : List Arrival
unheard = notified (codes "1") (codes "c") ∷ []

abbrev served : Broker
served = listen_for_clients unheard (remove_client follower (listen_for_clients heard followed))

handle_server_push-body_example : body_for 3 served.delivered ≡ codes "data: a\n\n"
unfolding lookup body_for
handle_server_push-body_example =
    handle_server_push-body quiet_env cfg new_broker followed follower (codes "GET")
      (codes "/log/foo/1") true 3 pending_state heard unheard start refl push_streams
      (refl, (refl, tt)) (refl, tt)

-- A build that is done has no log to follow.
push_done :
    (handle_server_push quiet_env cfg
      (codes "GET")
      (codes "/log/foo/1")
      true
      3
      new_broker
      ready_state).0
    ≡ (answers (plain_status 204), new_broker)
unfolding handle_server_push job_in_path split get_state syscall stat join
push_done = refl

-- ===== src/Client/Action.antt =====
-- The action of the command `build` of cmd/mistry/main.go, with the copies of transport.go.
use mistry.Base.{
  ℕ, Bool, true, false, Option, none, some, List, [], ◌∷◌, ◌++◌, ◌==◌, nat_eq, list_eq,
  if◌then◌else◌, ◌||◌, ◌&&◌, not,
}
use mistry.Types.{
  is_not_exist, rsync, scp, container_success_exit_code, BuildInfo, JobRequest, ok, err, Result,
  GoError, Params,
}
use mistry.Base.Int.{ℤ, int_eq}
use mistry.Paths.{slash}
use mistry.Base.Text.{trim_prefix, Str, codes, has_prefix}
use mistry.Client.{parse_dynamic_args, CopyArgs, scp_command, rsync_command, Flags}
use mistry.Base.Int.{pos}

-- Why the client fails; each keeps the values that its text shows.
pub data ClientError : Type 0 where
  usage : Str → ClientError
  invalid_transport : Str → ClientError
  system : GoError → ClientError
  not_a_directory : Str → ClientError
  overloaded : ℕ → ClientError
  not_scheduled : ℕ → Str → ClientError
  build_failed : ℤ → ClientError

pub data Attempt (A : Type 0) : Type 0 where
  good : A → Attempt A
  bad : ClientError → Attempt A
  fatal : Attempt A

-- How a run of the client ends well: the job is scheduled, or a command has fetched its artifacts.
pub data Ending : Type 0 where
  scheduled : Ending
  fetched : List Str → Ending

abbrev pub and_then : {A B : Type 0} → Attempt A → (A → Attempt B) → Attempt B
and_then (good a) f = f a
and_then (bad e) f = bad e
and_then fatal f = fatal

abbrev pub lift : {A : Type 0} → Result A → Attempt A
lift (ok a) = good a
lift (err e) = bad (system e)

abbrev pub require : Bool → ClientError → Attempt (Unit {0})
require true e = good tt
require false e = bad e

-- The calls of the client's own system and of the server: `ioutil.ReadFile`,
-- `time.ParseDuration`, `os.Stat` with `IsDir`, `os.MkdirAll`, the POST with its status and body,
-- `json.Unmarshal` into a new BuildInfo, `ioutil.ReadDir`, `filepath.Join`, `os.RemoveAll` and
-- `utils.RunCmd`.
pub record Outside : Type 0 where
  pub read_file : Str → Result Str
  pub parse_duration : Str → Result ℤ
  pub stat_dir : Str → Result Bool
  pub mkdir_all : Str → Result (Unit {0})
  pub post : Str → JobRequest → ℤ → Result (ℕ × Str)
  pub decode : Str → Result BuildInfo
  pub read_dir : Str → Result (List Str)
  pub join_names : Str → Str → Str
  pub remove_all : Str → Result (Unit {0})
  pub run : List Str → Result Str

-- What the flags must have before anything else is done.
abbrev pub check_flags : Flags → Attempt (Unit {0})
check_flags f = and_then (require (not (f.host == [])) (usage (codes "host cannot be empty"))) λ _.
    and_then (require (not (f.project == [])) (usage (codes "project cannot be empty"))) λ _.
      and_then (require (not (f.target == [])) (usage (codes "target cannot be empty"))) λ _.
        require (not (not f.no_wait && f.transport == []))
          (usage (codes "you need to either specify a transport or use the async flag"))

-- The keys of `transports`.
abbrev pub is_transport : Str → Bool
is_transport t = t == scp || t == rsync

-- `target[:len(target)-1]` if that takes away a slash.
abbrev pub strip_separator : Str → Str
strip_separator [] = []
strip_separator (c ∷ []) = if c == slash then [] else c ∷ []
strip_separator (c ∷ d ∷ s) = c ∷ strip_separator (d ∷ s)

abbrev pub base_url : Flags → Str
base_url f = codes "http://" ++ (f.host ++ (codes ":" ++ f.port))

abbrev pub jobs_url : Flags → Str
jobs_url f = base_url f ++ (codes "/jobs" ++ (if f.no_wait then codes "?async" else []))

abbrev pub job_request : Flags → Params → JobRequest
job_request f params = record {
  project = f.project;
  params = params;
  group = f.group;
  rebuild = f.rebuild;
}

module _ (o : Outside) where
  expand_value : Str → Attempt Str
  expand_value v =
      if has_prefix v (codes "@") then lift (o.read_file (trim_prefix v (codes "@"))) else good v

  -- Values that begin with an at sign are replaced by the content of the file that they name.
  unfoldable pub expand_params : Params → Attempt Params
  unfolding expand_value
  expand_params [] = good []
  expand_params ((k, v) ∷ params) =
      and_then (expand_value v) λ w. and_then (expand_params params) λ rest. good ((k, w) ∷ rest)

  target_found : Str → Result Bool → Attempt (Unit {0})
  target_found t (ok true) = good tt
  target_found t (ok false) = bad (not_a_directory t)
  target_found t (err e) = if is_not_exist e then lift (o.mkdir_all t) else bad (system e)

  unfoldable pub ensure_target : Str → Attempt (Unit {0})
  unfolding target_found
  ensure_target t = target_found t (o.stat_dir t)

  -- `sendRequest` from the status and the body of the answer.
  unfoldable pub accept_response : ℕ → Str → Attempt Str
  accept_response status body =
      if status == 503
      then bad (overloaded status)
      else if status == 201
      then good body
      else bad (not_scheduled status body)

  unfoldable pub send_request : Str → JobRequest → ℤ → Attempt Str
  send_request url jr timeout =
      and_then (lift (o.post url jr timeout)) λ answer. accept_response answer.0 answer.1

  remove_items : Str → List Str → Attempt (Unit {0})
  remove_items dir [] = good tt
  remove_items dir (item ∷ items) =
      and_then (lift (o.remove_all (o.join_names dir item))) λ _. remove_items dir items

  unfoldable pub remove_dir_contents : Str → Attempt (Unit {0})
  unfolding remove_items
  remove_dir_contents dir = and_then (lift (o.read_dir dir)) λ items. remove_items dir items

  unfoldable pub run_words : Option (List Str) → Attempt Ending
  run_words none = fatal
  run_words (some words) = and_then (lift (o.run words)) λ _. good (fetched words)

  -- `Scp.Copy` and `Rsync.Copy`
  unfoldable pub copy_by : (by_scp : Bool) → CopyArgs → Attempt Ending
  copy_by true a =
      and_then (if a.clear_dst then remove_dir_contents a.dst else good tt)
        λ _. run_words (scp_command a)
  copy_by false a = run_words (rsync_command a)

  -- `Copy` of the transport that the flag names.
  abbrev pub copy : Str → CopyArgs → Attempt Ending
  copy transport a = copy_by (transport == scp) a

  unfoldable pub copy_args : Flags → Str → BuildInfo → CopyArgs
  copy_args f target bi = record {
    user = f.transport_user;
    host = f.host;
    project = f.project;
    src = bi.path ++ codes "/*";
    dst = target;
    clear_dst = f.clear_target;
  }

  -- What is done with the body of an accepted answer.
  unfoldable pub use_answer : (no_wait : Bool) → Flags → Str → Str → Attempt Ending
  unfolding copy_args
  use_answer true f target body = good scheduled
  use_answer false f target body = and_then (lift (o.decode body)) λ bi.
      and_then (require (bi.exit_code == container_success_exit_code) (build_failed bi.exit_code))
        λ _. copy f.transport (copy_args f target bi)

  unfoldable pub client_timeout : Flags → Attempt ℤ
  client_timeout f = if f.timeout == [] then good (pos 0) else lift (o.parse_duration f.timeout)

  -- The action of `mistry build` with its dynamic arguments. The text that an error of the
  -- request has when it is a time-out is left out.
  unfoldable pub action : Flags → List Str → Attempt Ending
  unfolding client_timeout
  action f args = and_then (check_flags f) λ _. and_then (client_timeout f) λ timeout.
      and_then (require (is_transport f.transport) (invalid_transport f.transport)) λ _.
        and_then (expand_params (parse_dynamic_args args)) λ params.
          and_then (ensure_target (strip_separator f.target)) λ _.
            and_then (send_request (jobs_url f) (job_request f params) timeout)
              λ body. use_answer f.no_wait f (strip_separator f.target) body

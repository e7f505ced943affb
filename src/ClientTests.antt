-- ===== src/ClientTests.antt =====
-- Runs of the client of cmd/mistry.
use mistry.Base.{◌≡◌, refl, some, List, [], ◌∷◌, ◌++◌, true, false}
use mistry.Base.Text.{Str, codes, trim_left, split}
use mistry.Types.{ok, BuildInfo, new_build_info}
use mistry.Client.{parse_dynamic_args, CopyArgs, rsync_command, Flags, parse_from, from_first}
use mistry.Client.Arguments.{
  spaced, joined, Written, parse_dynamic_args-write_args, parse_dynamic_args-truncates,
}
use mistry.Base.Int.{pos}
use mistry.Base.Dict.{insert}
use mistry.Client.Rsync.{rsync_command_lem}
use mistry.Client.Action.{
  expand_params, ensure_target, send_request, accept_response, use_answer, copy_by, run_words,
  Outside, action, good, fetched,
}
use mistry.Client.Outcome.{HasFetched, action-fetched}

abbrev written : List Written
written = spaced (codes "a") (codes "b=c") ∷ joined (codes "d") (codes "e") ∷ []

parse_dynamic_args-write_args_example :
    parse_dynamic_args (codes "--a" ∷ codes "b=c" ∷ codes "--d=e" ∷ [])
    ≡ (codes "a", codes "b=c") ∷ (codes "d", codes "e") ∷ []
unfolding insert
parse_dynamic_args-write_args_example = parse_dynamic_args-write_args written (refl, (refl, tt))

value_cut_at_equals : parse_dynamic_args (codes "--url=x=y" ∷ []) ≡ (codes "url", codes "x") ∷ []
value_cut_at_equals =
    parse_dynamic_args-truncates (codes "url") (codes "x") (codes "y") refl refl refl

abbrev copy_yarn : CopyArgs
copy_yarn = record {
  user = codes "me";
  host = codes "h";
  project = codes "yarn";
  src = codes "/builds/yarn/ready/1/*";
  dst = codes ".";
  clear_dst = true;
}

rsync_command_lem_example :
    rsync_command copy_yarn
    ≡ some (
        codes "rsync"
        ∷ codes "-rtlp"
        ∷ codes "--delete"
        ∷ codes "me@h::mistry/yarn/ready/1/*"
        ∷ codes "."
        ∷ [])
rsync_command_lem_example =
    rsync_command_lem copy_yarn (codes "/builds/") (codes "/ready/1/*") refl refl

abbrev yarn_flags : Flags
yarn_flags = record {
  host = codes "h";
  port = codes "8462";
  project = codes "yarn";
  group = [];
  rebuild = false;
  timeout = [];
  no_wait = false;
  transport = codes "rsync";
  transport_user = codes "me";
  target = codes "out/";
  clear_target = true;
}

abbrev yarn_info : BuildInfo
yarn_info = record (new_build_info 0) { path = codes "/builds/yarn/ready/1"; exit_code = pos 0 }

-- A server that answers each job with a finished build.
abbrev pub obliging : Outside
obliging = record {
  read_file = λ name. ok name;
  parse_duration = λ _. ok (pos 0);
  stat_dir = λ _. ok true;
  mkdir_all = λ _. ok tt;
  post = λ url jr timeout. ok (201, codes "{}");
  decode = λ body. ok yarn_info;
  read_dir = λ _. ok [];
  join_names = λ dir name. dir ++ name;
  remove_all = λ _. ok tt;
  run = λ words. ok [];
}

abbrev yarn_words : List Str
yarn_words =
    codes "rsync"
    ∷ codes "-rtlp"
    ∷ codes "--delete"
    ∷ codes "me@h::mistry/yarn/ready/1/*"
    ∷ codes "out"
    ∷ []

yarn_fetched : action obliging yarn_flags (codes "--a=@f" ∷ []) ≡ good (fetched yarn_words)
unfolding action expand_params parse_from trim_left split insert ensure_target send_request
    accept_response use_answer copy_by run_words rsync_command from_first
yarn_fetched = refl

action-fetched_example : HasFetched obliging yarn_flags (codes "--a=@f" ∷ []) yarn_words
action-fetched_example =
    action-fetched obliging yarn_flags (codes "--a=@f" ∷ []) yarn_words yarn_fetched

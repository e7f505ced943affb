-- ===== src/Client/Outcome.antt =====
-- When the client (cmd/mistry/main.go) succeeds.
use mistry.Base.{
  ℕ, Bool, true, false, Option, none, some, List, ◌==◌, nat_eq, list_eq, if◌then◌else◌, refl, ◌≡◌,
  arith,
}
use mistry.Types.{scp, container_success_exit_code, BuildInfo, JobRequest, ok, err, Result, Params}
use mistry.Base.Int.{int_eq}
use mistry.Base.Text.{Str}
use mistry.Client.Action.{
  copy_by, use_answer, check_flags, client_timeout, action, and_then, ensure_target,
  strip_separator, remove_dir_contents, ClientError, run_words, Outside, Attempt, good, bad, fatal,
  fetched, lift, require, jobs_url, job_request, expand_params, accept_response, send_request,
  is_transport, invalid_transport,
}
use mistry.Client.{scp_command, parse_dynamic_args, CopyArgs, rsync_command, Flags}
use mistry.Base.Int.{ℤ}

-- A chain that ends well has each of its steps end well.
and_then-good :
    {A B : Type 0} (m : Attempt A) (f : A → Attempt B) (b : B)
    → and_then m f ≡ good b
    → (a : A) × ((m ≡ good a) × (f a ≡ good b))
and_then-good (good a) f b h = (a, (refl, h))
and_then-good (bad e) f b h = cc
and_then-good fatal f b h = cc

require-good : (t : Bool) (e : ClientError) (u : Unit {0}) → require t e ≡ good u → t ≡ true
require-good true e u h = refl
require-good false e u h = cc

lift-good : {A : Type 0} (m : Result A) (a : A) → lift m ≡ good a → m ≡ ok a
lift-good (ok x) a h = ground arith
lift-good (err e) a h = cc

-- What a client that says that it has fetched the artifacts with a command has done.
pub record HasFetched (o : Outside) (f : Flags) (args words : List Str) : Type 0 where
  pub params : Params
  pub timeout : ℤ
  pub body : Str
  pub info : BuildInfo
  pub printed : Str
  pub waited : f.no_wait ≡ false
  pub expanded : expand_params o (parse_dynamic_args args) ≡ good params
  pub posted : o.post (jobs_url f) (job_request f params) timeout ≡ ok (201, body)
  pub decoded : o.decode body ≡ ok info
  pub succeeded : info.exit_code ≡ container_success_exit_code
  pub ran : o.run words ≡ ok printed

module _ (o : Outside) where
  accept_response-good :
      (status : ℕ) (body got : Str)
      → accept_response o status body ≡ good got
      → (status ≡ 201) × (body ≡ got)
  unfolding accept_response
  accept_response-good status body got h = ground arith

  send_request-good :
      (url : Str) (jr : JobRequest) (timeout : ℤ) (body : Str)
      → send_request o url jr timeout ≡ good body
      → o.post url jr timeout ≡ ok (201, body)
  unfolding send_request
  send_request-good url jr timeout body h =
      let got = and_then-good (lift (o.post url jr timeout)) _ body h in
      let answer = lift-good (o.post url jr timeout) got.0 got.1.0 in
      let accepted = accept_response-good got.0.0 got.0.1 body got.1.1 in
      ground (arith, answer, accepted)

  run_words-good :
      (words : Option (List Str)) (ran : List Str)
      → run_words o words ≡ good (fetched ran)
      → (printed : Str) × (o.run ran ≡ ok printed)
  unfolding run_words
  run_words-good none ran h = cc
  run_words-good (some words) ran h =
      let got = and_then-good (lift (o.run words)) _ (fetched ran) h in
      (got.0, ground (arith, lift-good (o.run words) got.0 got.1.0, got.1.1))

  copy_by-good :
      (by_scp : Bool) (a : CopyArgs) (ran : List Str)
      → copy_by o by_scp a ≡ good (fetched ran)
      → (printed : Str) × (o.run ran ≡ ok printed)
  unfolding copy_by
  copy_by-good true a ran h =
      let got =
        and_then-good (if a.clear_dst then remove_dir_contents o a.dst else good tt) _ (fetched ran)
          h in
      run_words-good (scp_command a) ran got.1.1
  copy_by-good false a ran h = run_words-good (rsync_command a) ran h

  record HasUsed (f : Flags) (no_wait : Bool) (body : Str) (ran : List Str) : Type 0 where
    waited : no_wait ≡ false
    info : BuildInfo
    decoded : o.decode body ≡ ok info
    succeeded : info.exit_code ≡ container_success_exit_code
    printed : Str
    run : o.run ran ≡ ok printed

  use_answer-good :
      (no_wait : Bool) (f : Flags) (target body : Str) (ran : List Str)
      → use_answer o no_wait f target body ≡ good (fetched ran)
      → HasUsed f no_wait body ran
  unfolding use_answer
  use_answer-good true f target body ran h = cc
  use_answer-good false f target body ran h =
      let read = and_then-good (lift (o.decode body)) _ (fetched ran) h in
      let passed = and_then-good (require _ _) _ (fetched ran) read.1.1 in
      let copied = copy_by-good (f.transport == scp) _ ran passed.1.1 in
      record {
        waited = refl;
        info = read.0;
        decoded = lift-good (o.decode body) read.0 read.1.0;
        succeeded = (int_eq.same_iff _ _).0 (require-good _ _ passed.0 passed.1.0);
        printed = copied.0;
        run = copied.1;
      }

  -- If the client ends with the artifacts fetched by a command, then it did not have the flag
  -- `no-wait`, the values of its parameters could be read, the server answered the job with status
  -- 201, the answer is a build with exit code 0, and the command ran without an error.
  pub action-fetched :
      (f : Flags) (args ran : List Str)
      → action o f args ≡ good (fetched ran)
      → HasFetched o f args ran
  unfolding action
  action-fetched f args ran h =
      let checked = and_then-good (check_flags f) _ (fetched ran) h in
      let timed = and_then-good (client_timeout o f) _ (fetched ran) checked.1.1 in
      let transported =
        and_then-good (require (is_transport f.transport) (invalid_transport f.transport)) _
          (fetched ran) timed.1.1 in
      let expanded =
        and_then-good (expand_params o (parse_dynamic_args args)) _ (fetched ran) transported.1.1 in
      let targeted =
        and_then-good (ensure_target o (strip_separator f.target)) _ (fetched ran) expanded.1.1 in
      let sent =
        and_then-good (send_request o (jobs_url f) (job_request f expanded.0) timed.0) _
          (fetched ran) targeted.1.1 in
      let used = use_answer-good f.no_wait f _ sent.0 ran sent.1.1 in
      record {
        params = expanded.0;
        timeout = timed.0;
        body = sent.0;
        info = used.info;
        printed = used.printed;
        waited = used.waited;
        expanded = expanded.1.0;
        posted = send_request-good _ _ timed.0 sent.0 sent.1.0;
        decoded = used.decoded;
        succeeded = used.succeeded;
        ran = used.run;
      }

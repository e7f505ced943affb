-- ===== src/Server/Push/States.antt =====
-- How HandleServerPush (cmd/mistryd/server.go) answers for a build in each state.
use mistry.Base.{
  ℕ, suc, ◌≡◌, refl, Bool, true, false, Option, none, some, [], ◌∷◌, ◌++◌, arith, contains, nat_eq,
  list_eq,
}
use mistry.Base.Text.{Str, codes}
use mistry.Types.{Result, ok, err, message}
use mistry.Paths.{FilePath, slash, join, render}
use mistry.Files.{Node, stat, follow}
use mistry.System.{Env, State, syscall}
use mistry.Job.{Config, get_state}
use mistry.Worker.Cache.{Quiet}
use mistry.Broker.{Client, Broker, add_client}
use mistry.Server.{http_error, plain_status}
use mistry.Server.Pages.Addresses.{job_in_path-slashes}
use mistry.Server.Push.{PushReply, answers, streams, state_reply, push_found, handle_server_push}

module _ (cfg : Config) (project id : Str) where
  abbrev pub in_state : Str → FilePath
  in_state state = join cfg.build_path (project ∷ state ∷ id ∷ [])

  -- A build with a pending directory is followed by the connection `pointer`, which reads the log
  -- there; one with a ready directory alone has nothing to follow, and of others nothing is known.
  abbrev pub reply_for :
      (flusher : Bool) → ℕ → Broker → Option Node → Option Node → PushReply × Broker
  reply_for true pointer b (some m) ready =
      let c : Client = record {
        pointer = pointer;
        id = id;
        extra =
            render (join cfg.build_path (project ∷ codes "pending" ∷ id ∷ codes "out.log" ∷ []));
      } in
      (streams c, add_client c b)
  reply_for false pointer b (some m) ready =
      (answers (http_error (codes "Streaming unsupported!") 500), b)
  reply_for flusher pointer b none (some n) = (answers (plain_status 204), b)
  reply_for flusher pointer b none none = (answers (plain_status 500), b)

-- The state that is found in the two directories.
abbrev state_of : Str → Str → Option Node → Option Node → Result Str
state_of project id (some m) ready = ok (codes "pending")
state_of project id none (some n) = ok (codes "ready")
state_of project id none none =
    err (message (codes "job with id=" ++ (id ++ codes " not found error")))

module _ (env : Env) (quiet : Quiet env) (cfg : Config) (project id : Str) (flusher : Bool)
    (pointer : ℕ) (b : Broker) (s : State) where
  get_state-found :
      (m n : Option Node)
      → follow s.files (in_state cfg project id (codes "pending")) ≡ m
      → follow s.files (in_state cfg project id (codes "ready")) ≡ n
      → (get_state env cfg.build_path project id s).0 ≡ state_of project id m n
  unfolding get_state syscall stat
  get_state-found (some m) n h k = ground (arith, quiet s.tick, h)
  get_state-found none (some n) h k = ground (arith, quiet s.tick, quiet (suc s.tick), h, k)
  get_state-found none none h k = ground (arith, quiet s.tick, quiet (suc s.tick), h, k)

  state_reply-found :
      (f : Bool) (m n : Option Node)
      → state_reply env cfg f pointer project id b (state_of project id m n)
        ≡ reply_for cfg project id f pointer b m n
  unfolding state_reply
  state_reply-found true (some m) n = refl
  state_reply-found false (some m) n = refl
  state_reply-found true none (some n) = refl
  state_reply-found false none (some n) = refl
  state_reply-found true none none = refl
  state_reply-found false none none = refl

  -- Where no call fails, a request for `/<a>/<project>/<id>`, none of which has a slash, is answered
  -- from what the build path holds: if the build has a pending directory, the connection is given to
  -- the broker, to follow the log in that directory, or the answer is 500 if the connection cannot be
  -- flushed; if it has a ready directory alone the answer is 204, and otherwise 500; and in these
  -- cases the broker stays as it was.
  pub handle_server_push-reply :
      (a : Str)
      → contains a slash ≡ false
      → contains project slash ≡ false
      → contains id slash ≡ false
      → (handle_server_push env cfg
          (codes "GET")
          (slash ∷ (a ++ (slash ∷ (project ++ (slash ∷ id)))))
          flusher
          pointer
          b
          s).0
        ≡ reply_for cfg project id flusher pointer b
            (follow s.files (in_state cfg project id (codes "pending")))
            (follow s.files (in_state cfg project id (codes "ready")))
  unfolding handle_server_push push_found
  handle_server_push-reply a h k l =
      let m = follow s.files (in_state cfg project id (codes "pending")) in
      let n = follow s.files (in_state cfg project id (codes "ready")) in
      rw (job_in_path-slashes a project id h k l, get_state-found m n refl refl)
        (state_reply-found flusher m n)

-- ===== src/Server/Push.antt =====
-- cmd/mistryd/server.go: a request for the log of a build, from the broker (HandleServerPush).
pub mod Pending
pub mod Delivery
pub mod States
use mistry.Base.{
  ℕ, ◌+◌, Bool, not, Option, none, some, List, [], ◌∷◌, ◌++◌, ◌==◌, nat_eq, list_eq, if◌then◌else◌,
}
use mistry.Base.Text.{Str, codes}
use mistry.Types.{Result, ok, err}
use mistry.Paths.{FilePath, join, render, build_log_fname}
use mistry.System.{Env, State, ◌>>=◌, ◌>>◌}
use mistry.Job.{Config, get_state}
use mistry.Server.{Response, http_error, plain_status}
use mistry.Server.Pages.{job_in_path, expected_get}
use mistry.Broker.{Client, Broker, add_client}

-- The handler answers, or sends events to a connection that it gave to the broker.
pub data PushReply : Type 0 where
  answers : Response → PushReply
  streams : Client → PushReply

-- `data: %s\n\n`
abbrev pub event_text : Str → Str
event_text msg = codes "data: " ++ (msg ++ codes "\n\n")

-- What the connection `pointer` was sent.
unfoldable pub body_for : ℕ → List (ℕ × Str) → Str
body_for pointer [] = []
body_for pointer ((p, msg) ∷ sent) =
    let rest = body_for pointer sent in if p == pointer then event_text msg ++ rest else rest

-- The connection `pointer` that follows the log of a pending build.
abbrev pub client_of : FilePath → Str → Str → Str → ℕ → Client
client_of build_path project state id pointer = record {
  pointer = pointer;
  id = id;
  extra = render (join build_path (project ∷ state ∷ id ∷ build_log_fname ∷ []));
}

-- `s.br.NewClients <- client`
abbrev pub registered : Client → Broker → PushReply × Broker
registered c b = (streams c, add_client c b)

module _ (env : Env) (cfg : Config) where
  -- From the state of the job on; `flusher` says whether the connection can be flushed.
  state_reply : (flusher : Bool) → ℕ → Str → Str → Broker → Result Str → PushReply × Broker
  state_reply flusher pointer project id b (err e) = (answers (plain_status 500), b)
  state_reply flusher pointer project id b (ok state) =
      if not (state == codes "pending")
      then (answers (plain_status 204), b)
      else if not flusher
      then (answers (http_error (codes "Streaming unsupported!") 500), b)
      else registered (client_of cfg.build_path project state id pointer) b

  push_found : Bool → ℕ → Broker → Option (Str × Str) → State → (PushReply × Broker) × State
  unfolding state_reply
  push_found flusher pointer b none s = ((answers (plain_status 400), b), s)
  push_found flusher pointer b (some (project, id)) s =
      let found = get_state env cfg.build_path project id s in
      (state_reply flusher pointer project id b found.0, found.1)

  -- `HandleServerPush`, up to the loop that sends what the broker delivers. `pointer` is the new
  -- connection.
  unfoldable pub handle_server_push :
      Str → Str → Bool → ℕ → Broker → State → (PushReply × Broker) × State
  unfolding push_found
  handle_server_push method path flusher pointer b s =
      if method == codes "GET"
      then push_found flusher pointer b (job_in_path path) s
      else ((answers (expected_get method), b), s)

-- ===== src/Server/Push/Pending.antt =====
-- Which requests for a log HandleServerPush (cmd/mistryd/server.go) leaves open.
use mistry.Base.{
  ℕ, ◌≡◌, refl, inl, inr, Bool, Option, none, some, arith, count_if, Bool-cases, ◌==◌, nat_eq,
  list_eq, list_beq_iff,
}
use mistry.Base.Dict.{lookup}
use mistry.Base.Text.{Str, codes}
use mistry.Types.{Result, ok, err}
use mathlib.Core.Path.{subst, sym, ap, ◌∙◌}
use mistry.System.{Env, State}
use mistry.Job.{Config, get_state}
use mistry.Server.Pages.{job_in_path}
use mistry.Broker.{Client, Broker, add_client, Run, opens}
use mistry.Server.Push.{
  PushReply, answers, streams, client_of, registered, state_reply, push_found, handle_server_push,
}
use mistry.Broker.Tracking.{Run-IsTracked, add_client-followed}

abbrev client_in : Client → PushReply → Client
client_in c (streams d) = d
client_in c (answers r) = c

module _ (env : Env) (cfg : Config) (b after : Broker) (c : Client) where
  -- What is known of a request that is left open.
  pub record IsFollowed (s : State) (path : Str) (pointer : ℕ) : Type 0 where
    pub project : Str
    pub named : job_in_path path ≡ some (project, c.id)
    pub pending : (get_state env cfg.build_path project c.id s).0 ≡ ok (codes "pending")
    pub log : c ≡ client_of cfg.build_path project (codes "pending") c.id pointer
    pub added : after ≡ add_client c b

  state_reply-streams :
      (flusher : Bool) (pointer : ℕ) (project id : Str) (r : Result Str)
      → state_reply env cfg flusher pointer project id b r ≡ (streams c, after)
      → (r ≡ ok (codes "pending"))
        × ((c ≡ client_of cfg.build_path project (codes "pending") id pointer)
            × (after ≡ add_client c b))
  unfolding state_reply
  state_reply-streams flusher pointer project id (err e) h = absurd (cc)
  state_reply-streams flusher pointer project id (ok state) h =
      elim (Bool-cases (state == codes "pending")) [
        | inr e ↦ absurd (ground (arith, e, h))
        | inl e ↦
            let same : state ≡ codes "pending" = (list_beq_iff state (codes "pending")).0 e in
            elim (Bool-cases flusher) [
              | inr k ↦ absurd (ground (arith, e, k, h))
              | inl k ↦
                  let got : ◌≡◌ {A = PushReply × Broker}
                      (registered (client_of cfg.build_path project state id pointer) b)
                      (streams c, after) =
                    ground (arith, e, k, h) in
                  let own : client_of cfg.build_path project (codes "pending") id pointer ≡ c =
                    ap (λ x. client_of cfg.build_path project x id pointer) (sym same)
                    ∙ ap (λ r. client_in c r.0) got in
                  (
                    ap ok same,
                    (
                      sym own,
                      sym (ap (λ r. r.1) got)
                          ∙ ap (λ x. add_client x b) (ap (λ r. client_in c r.0) got),
                    ),
                  )
            ]
      ]

  push_found-streams :
      (flusher : Bool) (pointer : ℕ) (path : Str) (named : Option (Str × Str)) (s : State)
      → job_in_path path ≡ named
      → (push_found env cfg flusher pointer b named s).0 ≡ (streams c, after)
      → IsFollowed s path pointer
  unfolding push_found
  push_found-streams flusher pointer path none s k h = absurd (cc)
  push_found-streams flusher pointer path (some (project, id)) s k h =
      let got =
        state_reply-streams flusher pointer project id (get_state env cfg.build_path project id s).0
          h in
      let own : id ≡ c.id = sym (ap (λ x. x.id) got.1.0) in
      record {
        project = project;
        named = k ∙ ap (λ x. some (project, x)) own;
        pending = ap (λ x. (get_state env cfg.build_path project x s).0) (sym own) ∙ got.0;
        log = got.1.0 ∙ ap (λ x. client_of cfg.build_path project (codes "pending") x pointer) own;
        added = got.1.1;
      }

  IsFollowed-runs :
      {s : State} {path : Str} {pointer : ℕ}
      → IsFollowed s path pointer
      → Run b
      → lookup pointer b.clients ≡ none
      → Run after × (count_if (λ t. t == c.id) after.tailers ≡ 1)
  IsFollowed-runs f run fresh =
      let new : lookup c.pointer b.clients ≡ none =
        ap (λ x. lookup x.pointer b.clients) f.log ∙ fresh in
      (
        subst Run (sym f.added) (opens b c run new),
        ap (λ x. count_if (λ t. t == c.id) x.tailers) f.added
            ∙ add_client-followed b c (Run-IsTracked b run) new,
      )

  -- A request that HandleServerPush leaves open, at a broker in some state of a run to which its
  -- connection is new, is for the log of a build that is pending: the connection follows the log in
  -- the pending directory of the job that the path names, the broker is in a state of the run, and
  -- exactly one tailer of this job runs.
  pub handle_server_push-IsFollowed :
      (method path : Str) (flusher : Bool) (pointer : ℕ) (s : State)
      → Run b
      → lookup pointer b.clients ≡ none
      → (handle_server_push env cfg method path flusher pointer b s).0 ≡ (streams c, after)
      → IsFollowed s path pointer × (Run after × (count_if (λ t. t == c.id) after.tailers ≡ 1))
  unfolding handle_server_push
  handle_server_push-IsFollowed method path flusher pointer s run fresh h =
      elim (Bool-cases (method == codes "GET")) [
        | inr e ↦ absurd (ground (arith, e, h))
        | inl e ↦
            let found : IsFollowed s path pointer =
              push_found-streams flusher pointer path (job_in_path path) s refl
                (ground (arith, e, h)) in
            (found, IsFollowed-runs found run fresh)
      ]

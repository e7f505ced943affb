-- ===== src/Server/Push/Delivery.antt =====
-- What a connection of HandleServerPush (cmd/mistryd/server.go) is sent by the broker (pkg/broker).
use mistry.Base.{
  ℕ, ◌≡◌, refl, inl, inr, Bool, false, none, List, [], ◌∷◌, ◌++◌, arith, Bool-cases, All, ◌==◌,
  nat_eq, list_eq, if◌then◌else◌,
}
use mistry.Base.Dict.{Dict, lookup, insert, erase}
use mistry.Base.Text.{Str}
use mathlib.Core.Path.{subst, sym, ap, ◌∙◌}
use mistry.Broker.{
  Client, Broker, add_client, remove_client, notify, sends_for, Arrival, new_client, closing_client,
  notified, arrive, listen_for_clients, Run,
}
use mistry.Server.Push.{body_for, event_text, streams, handle_server_push}
use mistry.Server.Push.Pending.{handle_server_push-IsFollowed}
use mathlib.Core.List.{append_assoc, append-nil}
use mistry.Job.{Config}
use mistry.System.{Env, State}

-- The events of the jobs that `hears` picks, as they are written.
abbrev pub events_of : (hears : Str → Bool) → List Arrival → Str
events_of hears [] = []
events_of hears (new_client c ∷ arrivals) = events_of hears arrivals
events_of hears (closing_client c ∷ arrivals) = events_of hears arrivals
events_of hears (notified id msg ∷ arrivals) =
    let rest = events_of hears arrivals in if hears id then event_text msg ++ rest else rest

-- The connection `p` is added or closed.
abbrev pub concerns : ℕ → Arrival → Bool
concerns p (new_client c) = p == c.pointer
concerns p (closing_client c) = p == c.pointer
concerns p (notified id msg) = false

abbrev pub IsApart : ℕ → List Arrival → Type 0
IsApart p arrivals = All (λ a. concerns p a ≡ false) arrivals

-- Of the connections, `p` is sent the events that `hears` picks, each once.
abbrev Hears : ℕ → (Str → Bool) → Dict ℕ Client → Type 0
Hears p hears clients =
    (id msg : Str)
    → body_for p (sends_for id msg clients) ≡ (if hears id then event_text msg else [])

body_for-append :
    (p : ℕ) (xs ys : List (ℕ × Str)) → body_for p (xs ++ ys) ≡ body_for p xs ++ body_for p ys
unfolding body_for
body_for-append p [] ys = refl
body_for-append p ((q, m) ∷ xs) ys = elim (Bool-cases (q == p)) [
  | inl e ↦ ground (
    arith,
    e,
    body_for-append p xs ys,
    append_assoc (event_text m) (body_for p xs) (body_for p ys),
  )
  | inr e ↦ ground (arith, e, body_for-append p xs ys)
]

module _ (p : ℕ) (id msg : Str) where
  insert-others :
      (c : Client) (cs : Dict ℕ Client)
      → (p == c.pointer) ≡ false
      → body_for p (sends_for id msg (insert c.pointer c cs)) ≡ body_for p (sends_for id msg cs)
  unfolding insert sends_for body_for
  insert-others c [] h = ground arith
  insert-others c ((q, d) ∷ cs) h = ground (arith, insert-others c cs h)

  erase-others :
      (q : ℕ) (cs : Dict ℕ Client)
      → (p == q) ≡ false
      → body_for p (sends_for id msg (erase q cs)) ≡ body_for p (sends_for id msg cs)
  unfolding erase sends_for body_for
  erase-others q [] h = refl
  erase-others q ((r, d) ∷ cs) h = ground (arith, erase-others q cs h)

  erase-own : (cs : Dict ℕ Client) → body_for p (sends_for id msg (erase p cs)) ≡ []
  unfolding erase sends_for body_for
  erase-own [] = refl
  erase-own ((r, d) ∷ cs) = ground (arith, erase-own cs)

  insert-own :
      (c : Client) (cs : Dict ℕ Client)
      → p ≡ c.pointer
      → lookup p cs ≡ none
      → body_for p (sends_for id msg (insert c.pointer c cs))
        ≡ (if c.id == id then event_text msg else [])
  unfolding insert sends_for body_for lookup
  insert-own c [] h k = ground (arith, append-nil (event_text msg))
  insert-own c ((q, d) ∷ cs) h k = ground (arith, insert-own c cs h)

add_client-clients :
    (c : Client) (b : Broker)
    → ((add_client c b).clients ≡ insert c.pointer c b.clients)
      × ((add_client c b).delivered ≡ b.delivered)
unfolding add_client
add_client-clients c b = ground arith

module _ (p : ℕ) (hears : Str → Bool) where
  events_of-cons :
      (x : Arrival) (arrivals : List Arrival)
      → events_of hears (x ∷ arrivals) ≡ events_of hears (x ∷ []) ++ events_of hears arrivals
  events_of-cons (new_client c) arrivals = refl
  events_of-cons (closing_client c) arrivals = refl
  events_of-cons (notified id msg) arrivals =
      ground (arith, append_assoc (event_text msg) [] (events_of hears arrivals))

  -- One arrival without a word of `p`.
  arrive-body :
      (x : Arrival) (b : Broker)
      → Hears p hears b.clients
      → concerns p x ≡ false
      → (body_for p (arrive x b).delivered ≡ body_for p b.delivered ++ events_of hears (x ∷ []))
        × Hears p hears (arrive x b).clients
  unfolding remove_client notify
  arrive-body (new_client c) b h a =
      let same = add_client-clients c b in
      (
        ap (body_for p) same.1 ∙ sym (append-nil (body_for p b.delivered)),
        λ id msg.
            ap (λ cs. body_for p (sends_for id msg cs)) same.0
            ∙ insert-others p id msg c b.clients a
            ∙ h id msg,
      )
  arrive-body (closing_client c) b h a = (
    sym (append-nil (body_for p b.delivered)),
    λ id msg. erase-others p id msg c.pointer b.clients a ∙ h id msg,
  )
  arrive-body (notified id msg) b h a = (
    body_for-append p b.delivered (sends_for id msg b.clients)
        ∙ ap (λ t. body_for p b.delivered ++ t)
            (ground (arith, h id msg, append-nil (event_text msg))),
    h,
  )

  -- A connection that is neither added nor closed goes on as it was, and is sent what it hears.
  listen_for_clients-body :
      (arrivals : List Arrival) (b : Broker)
      → Hears p hears b.clients
      → IsApart p arrivals
      → (body_for p (listen_for_clients arrivals b).delivered
          ≡ body_for p b.delivered ++ events_of hears arrivals)
        × Hears p hears (listen_for_clients arrivals b).clients
  unfolding listen_for_clients
  listen_for_clients-body [] b h a = (sym (append-nil (body_for p b.delivered)), h)
  listen_for_clients-body (x ∷ arrivals) b h a =
      let one = arrive-body x b h a.0 in
      let rest = listen_for_clients-body arrivals (arrive x b) one.1 a.1 in
      (
        rest.0
            ∙ ap (λ t. t ++ events_of hears arrivals) one.0
            ∙ append_assoc (body_for p b.delivered) (events_of hears (x ∷ []))
                (events_of hears arrivals)
            ∙ ap (λ t. body_for p b.delivered ++ t) (sym (events_of-cons x arrivals)),
        rest.1,
      )

events_of-deaf : (arrivals : List Arrival) → events_of (λ id. false) arrivals ≡ []
events_of-deaf [] = refl
events_of-deaf (new_client c ∷ arrivals) = events_of-deaf arrivals
events_of-deaf (closing_client c ∷ arrivals) = events_of-deaf arrivals
events_of-deaf (notified id msg ∷ arrivals) = events_of-deaf arrivals

-- A closed connection is sent nothing more.
remove_client-body :
    (c : Client) (b : Broker) (later : List Arrival)
    → IsApart c.pointer later
    → body_for c.pointer (listen_for_clients later (remove_client c b)).delivered
      ≡ body_for c.pointer b.delivered
unfolding remove_client
remove_client-body c b later a =
    (listen_for_clients-body c.pointer (λ id. false) later (remove_client c b)
      (λ id msg. erase-own c.pointer id msg b.clients) a).0
    ∙ ap (λ t. body_for c.pointer b.delivered ++ t) (events_of-deaf later)
    ∙ append-nil (body_for c.pointer b.delivered)

-- An added connection hears the events of its job.
add_client-body :
    (c : Client) (b : Broker) (during : List Arrival)
    → lookup c.pointer b.clients ≡ none
    → IsApart c.pointer during
    → body_for c.pointer (listen_for_clients during (add_client c b)).delivered
      ≡ body_for c.pointer b.delivered ++ events_of (λ id. c.id == id) during
add_client-body c b during fresh a =
    let same = add_client-clients c b in
    (listen_for_clients-body c.pointer (λ id. c.id == id) during (add_client c b)
      (λ id msg.
        ap (λ cs. body_for c.pointer (sends_for id msg cs)) same.0
        ∙ insert-own c.pointer id msg c b.clients refl fresh)
      a).0
    ∙ ap (λ d. body_for c.pointer d ++ events_of (λ id. c.id == id) during) same.1

-- If HandleServerPush leaves a request open, at a broker in some state of a run to which its
-- connection is new, then after whatever arrives at the broker until the connection is closed and
-- later, where nothing else that arrives adds or closes it, the connection was sent, after what was
-- sent to its pointer before, the text of each event that arrived for its job while it was open,
-- once and in order, and nothing more.
pub handle_server_push-body :
    (env : Env) (cfg : Config) (b after : Broker) (c : Client) (method path : Str) (flusher : Bool)
    (pointer : ℕ) (s : State) (during later : List Arrival)
    → Run b
    → lookup pointer b.clients ≡ none
    → (handle_server_push env cfg method path flusher pointer b s).0 ≡ (streams c, after)
    → IsApart pointer during
    → IsApart pointer later
    → body_for pointer
        (listen_for_clients later (remove_client c (listen_for_clients during after))).delivered
      ≡ body_for pointer b.delivered ++ events_of (λ id. c.id == id) during
handle_server_push-body env cfg b after c method path flusher pointer s during later run fresh h a
      l =
    let followed =
      (handle_server_push-IsFollowed env cfg b after c method path flusher pointer s run fresh
        h).0 in
    let own : pointer ≡ c.pointer = sym (ap (λ x. x.pointer) followed.log) in
    let body =
      remove_client-body c (listen_for_clients during after) later
        (subst (λ p. IsApart p later) own l)
      ∙ ap (λ x. body_for c.pointer (listen_for_clients during x).delivered) followed.added
      ∙ add_client-body c b during (subst (λ p. lookup p b.clients ≡ none) own fresh)
          (subst (λ p. IsApart p during) own a) in
    subst
      (λ p.
        body_for p
          (listen_for_clients later (remove_client c (listen_for_clients during after))).delivered
        ≡ body_for p b.delivered ++ events_of (λ id. c.id == id) during)
      (sym own) body

-- ===== src/Broker.antt =====
-- pkg/broker: the loop that passes the lines of build logs on to the connections that follow them.
pub mod Counting
pub mod Tracking
use mistry.Base.{
  ℕ, ◌≡◌, true, false, none, some, List, [], ◌∷◌, ◌++◌, ◌==◌, nat_eq, list_eq, if◌then◌else◌,
}
use mistry.Base.Dict.{Dict, lookup, insert, erase}
use mistry.Base.Text.{Str}
use mistry.Base.Int.{ℤ, pos, incr, decr, is_pos, int_eq}

-- A connection: the pointer by which the registry knows it, the job, and the log's path.
pub record Client : Type 0 where
  pub pointer : ℕ
  pub id : Str
  pub extra : Str

-- `tailers` are the ids for which a goroutine reads the log, until it is told to stop. `delivered`
-- is what was sent to the connections, by pointer, and `ended` those whose channel was closed.
pub record Broker : Type 0 where
  pub clients : Dict ℕ Client
  pub clients_count : Dict Str ℤ
  pub tailers : List Str
  pub delivered : List (ℕ × Str)
  pub ended : List ℕ

abbrev pub new_broker : Broker
new_broker = record { clients = []; clients_count = []; tailers = []; delivered = []; ended = [] }

-- `cc` for an id: 0 for a missing key.
abbrev pub count_in : Str → Dict Str ℤ → ℤ
count_in id counts = elim (lookup id counts) [ none ↦ pos 0 | some n ↦ n ]

abbrev pub count_of : Str → Broker → ℤ
count_of id b = count_in id b.clients_count

-- A client from the channel NewClients.
unfoldable pub add_client : Client → Broker → Broker
add_client c b =
    if is_pos (count_of c.id b)
    then record b {
      clients = insert c.pointer c b.clients;
      clients_count = insert c.id (incr (count_of c.id b)) b.clients_count;
    }
    else record b {
      clients = insert c.pointer c b.clients;
      clients_count = insert c.id (pos 1) b.clients_count;
      tailers = c.id ∷ b.tailers;
    }

-- One goroutine receives from the channel of its id and stops.
abbrev pub stop_one : Str → List Str → List Str
stop_one id [] = []
stop_one id (t ∷ ts) = elim (t == id) [ true ↦ ts | false ↦ t ∷ stop_one id ts ]

-- A client from the channel ClosingClients.
unfoldable pub remove_client : Client → Broker → Broker
remove_client c b =
    let count = decr (count_of c.id b) in
    record b {
      clients = erase c.pointer b.clients;
      clients_count = insert c.id count b.clients_count;
      tailers = if count == pos 0 then stop_one c.id b.tailers else b.tailers;
      ended = c.pointer ∷ b.ended;
    }

unfoldable pub sends_for : Str → Str → Dict ℕ Client → List (ℕ × Str)
sends_for id msg [] = []
sends_for id msg ((p, c) ∷ clients) =
    let rest = sends_for id msg clients in if c.id == id then (p, msg) ∷ rest else rest

-- An event from the channel Notifier.
unfoldable pub notify : Str → Str → Broker → Broker
unfolding sends_for
notify id msg b = record b { delivered = b.delivered ++ sends_for id msg b.clients }

-- What arrives on one of the three channels; an event has its id and its message.
pub data Arrival : Type 0 where
  new_client : Client → Arrival
  closing_client : Client → Arrival
  notified : Str → Str → Arrival

abbrev pub arrive : Arrival → Broker → Broker
arrive (new_client c) b = add_client c b
arrive (closing_client c) b = remove_client c b
arrive (notified id msg) b = notify id msg b

-- The loop of `ListenForClients`, for what arrives in this order.
unfoldable pub listen_for_clients : List Arrival → Broker → Broker
listen_for_clients [] b = b
listen_for_clients (a ∷ arrivals) b = listen_for_clients arrivals (arrive a b)

-- What arrives on the channels, where a connection is added once and closed at most once, after
-- that, as HandleServerPush does.
pub data Run : Broker → Type 0 where
  start : Run new_broker
  opens :
      (b : Broker) (c : Client) → Run b → lookup c.pointer b.clients ≡ none → Run (add_client c b)
  closes :
      (b : Broker) (c : Client)
      → Run b
      → lookup c.pointer b.clients ≡ some c
      → Run (remove_client c b)
  prints : (b : Broker) (id msg : Str) → Run b → Run (notify id msg b)

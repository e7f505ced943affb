-- ===== src/BrokerTests.antt =====
-- A run of the broker of pkg/broker with two connections for one log.
use mistry.Base.{ℕ, ◌≡◌, refl, some, none, nat_eq, list_eq}
use mistry.Base.Text.{codes}
use mistry.Base.Dict.{lookup, insert}
use mistry.Broker.{
  Client, Broker, new_broker, add_client, remove_client, notify, start, opens, closes, prints,
}
use mistry.Broker.Counting.{IsTracked}
use mistry.Broker.Tracking.{Run-IsTracked}

abbrev browser : ℕ → Client
browser p = record {
  pointer = p;
  id = codes "yarn/1";
  extra = codes "/builds/yarn/pending/1/out.log";
}

abbrev two_browsers : Broker
unfolding add_client
two_browsers = add_client (browser 2) (add_client (browser 1) new_broker)

one_left : Broker
one_left = remove_client (browser 1) (notify (codes "yarn/1") (codes "hello") two_browsers)

known : lookup 1 two_browsers.clients ≡ some (browser 1)
unfolding add_client insert lookup
known = refl

unknown : lookup 2 (add_client (browser 1) new_broker).clients ≡ none
unfolding add_client insert lookup
unknown = refl

absent_first : lookup 1 new_broker.clients ≡ none
unfolding lookup
absent_first = refl

known_after :
    lookup 1 (notify (codes "yarn/1") (codes "hello") two_browsers).clients ≡ some (browser 1)
unfolding notify
known_after = known

Run-IsTracked_example : IsTracked one_left
unfolding one_left add_client two_browsers
Run-IsTracked_example = Run-IsTracked one_left (
    closes (notify (codes "yarn/1") (codes "hello") two_browsers) (browser 1)
      (prints two_browsers (codes "yarn/1") (codes "hello") (
        opens (add_client (browser 1) new_broker) (browser 2)
          (opens new_broker (browser 1) start absent_first) unknown))
      known_after)

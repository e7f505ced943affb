-- ===== src/Broker/Tracking.antt =====
-- Each step of the broker (pkg/broker/broker.go) keeps its counts and its tailers true.
use mistry.Base.{
  bit-at-most, bit, ℕ, suc, ◌≤◌, ◌<◌, ◌≡◌, refl, inl, inr, false, none, some, ◌∷◌, arith, ltb,
  count_if, Bool-cases, ◌==◌, nat_eq, list_eq, if◌then◌else◌, list_beq_iff, sym,
}
use mistry.Base.Dict.{Dict, lookup, insert, erase}
use mistry.Base.Text.{Str}
use mistry.Base.Int.{pos, decr, is_pos, int_eq}
use mathlib.Core.Path.{subst}
use mistry.Broker.{
  Run, start, opens, closes, prints, notify, remove_client, stop_one, Client, Broker, count_of,
  add_client,
}
use mistry.Broker.Counting.{
  clients_for, IsTracked, erase-count, stop_one-count, absent-count, fresh-count, start-IsTracked,
  counted-insert, is_pos-ltb,
}

module _ (b : Broker) (c : Client) (t : IsTracked b) (h : lookup c.pointer b.clients ≡ none) where
  added : Dict ℕ Client
  added = insert c.pointer c b.clients

  added-own : clients_for c.id added ≡ suc (clients_for c.id b.clients)
  unfolding added
  added-own =
      ground
        (arith, fresh-count (λ e. e.1.id == c.id) c.pointer c b.clients h, list_beq_iff c.id c.id)

  added-others : (id : Str) → (id == c.id) ≡ false → clients_for id added ≡ clients_for id b.clients
  unfolding added
  added-others id apart = ground (
    arith,
    fresh-count (λ e. e.1.id == id) c.pointer c b.clients h,
    list_beq_iff c.id id,
    list_beq_iff id c.id,
  )

  added-single : (p : ℕ) → count_if (λ e. e.0 == p) added ≤ 1
  unfolding added
  added-single p = elim (Bool-cases (c.pointer == p)) [
    | inl e ↦
        let same : p ≡ c.pointer = ground arith in
        rw same (
          omega (
            arith,
            fresh-count (λ e. e.0 == c.pointer) c.pointer c b.clients h,
            absent-count c.pointer b.clients h,
            bit-at-most (c.pointer == c.pointer),
          ))
    | inr e ↦ ground (arith, fresh-count (λ e. e.0 == p) c.pointer c b.clients h, t.single p)
  ]

  live : is_pos (count_of c.id b) ≡ ltb 0 (clients_for c.id b.clients)
  live = rw (t.counted c.id) (is_pos-ltb (clients_for c.id b.clients))

  pub add_client-IsTracked : IsTracked (add_client c b)
  unfolding add_client added
  add_client-IsTracked = elim (Bool-cases (is_pos (count_of c.id b))) [
    | inl e ↦ rw e (record {
      counted = λ id. rw (t.counted c.id) (
          counted-insert b c.id (suc (clients_for c.id b.clients)) added id t added-own
            (added-others id));
      followed = λ id. elim (Bool-cases (id == c.id)) [
        | inl same ↦
            let key : id ≡ c.id = (list_beq_iff id c.id).0 same in
            rw (key, t.followed c.id) (ground (arith, added-own, live))
        | inr apart ↦ rw (added-others id apart) (t.followed id)
      ];
      single = added-single;
    })
    | inr e ↦ rw e (record {
      counted = λ id.
          counted-insert b c.id 1 added id t (ground (arith, added-own, live)) (added-others id);
      followed = λ id. elim (Bool-cases (id == c.id)) [
        | inl same ↦
            let key : id ≡ c.id = (list_beq_iff id c.id).0 same in
            subst
              (λ k. count_if (λ x. x == k) (c.id ∷ b.tailers) ≡ bit (ltb 0 (clients_for k added)))
              (sym key) (ground (arith, t.followed c.id, added-own, live, list_beq_iff c.id c.id))
        | inr apart ↦
            rw (added-others id apart)
              (ground (arith, t.followed id, list_beq_iff c.id id, list_beq_iff id c.id))
      ];
      single = added-single;
    })
  ]

  added-clients : clients_for c.id (add_client c b).clients ≡ suc (clients_for c.id b.clients)
  unfolding add_client added
  added-clients = elim (Bool-cases (is_pos (count_of c.id b))) [
    | inl e ↦ rw e added-own
    | inr e ↦ rw e added-own
  ]

  -- The log of a new connection is followed, once.
  pub add_client-followed : count_if (λ t. t == c.id) (add_client c b).tailers ≡ 1
  add_client-followed = ground (arith, add_client-IsTracked.followed c.id, added-clients)

module _ (b : Broker) (c : Client) (t : IsTracked b) (h : lookup c.pointer b.clients ≡ some c) where
  kept : Dict ℕ Client
  kept = erase c.pointer b.clients

  kept-own : suc (clients_for c.id kept) ≡ clients_for c.id b.clients
  unfolding kept
  kept-own = ground (
    arith,
    erase-count (λ e. e.1.id == c.id) c.pointer c b.clients h (t.single c.pointer),
    list_beq_iff c.id c.id,
  )

  kept-others : (id : Str) → (id == c.id) ≡ false → clients_for id kept ≡ clients_for id b.clients
  unfolding kept
  kept-others id apart = ground (
    arith,
    erase-count (λ e. e.1.id == id) c.pointer c b.clients h (t.single c.pointer),
    list_beq_iff c.id id,
    list_beq_iff id c.id,
  )

  kept-single : (p : ℕ) → count_if (λ e. e.0 == p) kept ≤ 1
  unfolding kept
  kept-single p =
      omega (
        arith,
        erase-count (λ e. e.0 == p) c.pointer c b.clients h (t.single c.pointer),
        t.single p,
      )

  -- The count goes down to the number of the connections that are left.
  decr-own : decr (count_of c.id b) ≡ pos (clients_for c.id kept)
  decr-own = rw (t.counted c.id, sym kept-own) refl

  kept-followed :
      (id : Str)
      → count_if
          (λ x. x == id)
          (if pos (clients_for c.id kept) == pos 0 then stop_one c.id b.tailers else b.tailers)
        ≡ bit (ltb 0 (clients_for id kept))
  kept-followed id =
      let running : 0 < count_if (λ x. x == c.id) b.tailers =
        ground (arith, t.followed c.id, kept-own) in
      elim (Bool-cases (id == c.id)) [
        | inl same ↦
            subst
              (λ k.
                count_if (λ x. x == k)
                  (if pos (clients_for c.id kept) == pos 0
                    then stop_one c.id b.tailers
                    else b.tailers)
                ≡ bit (ltb 0 (clients_for k kept)))
              (sym ((list_beq_iff id c.id).0 same))
              (ground (
                arith,
                t.followed c.id,
                kept-own,
                stop_one-count c.id c.id b.tailers running,
                list_beq_iff c.id c.id,
              ))
        | inr apart ↦ rw (kept-others id apart) (
            ground (
              arith,
              t.followed id,
              stop_one-count c.id id b.tailers running,
              list_beq_iff c.id id,
              list_beq_iff id c.id,
            ))
      ]

  pub remove_client-IsTracked : IsTracked (remove_client c b)
  unfolding remove_client kept
  remove_client-IsTracked = rw decr-own (record {
    counted = λ id. counted-insert b c.id (clients_for c.id kept) kept id t refl (kept-others id);
    followed = kept-followed;
    single = kept-single;
  })

-- In each state that the loop of the broker reaches, for connections that are added once and closed
-- at most once after that: the count of each job is the number of the connections that follow it, a
-- tailer of its log runs exactly if there is one, and never two.
pub Run-IsTracked : (b : Broker) → Run b → IsTracked b
unfolding notify
Run-IsTracked _ start = start-IsTracked
Run-IsTracked _ (opens b c run h) = add_client-IsTracked b c (Run-IsTracked b run) h
Run-IsTracked _ (closes b c run h) = remove_client-IsTracked b c (Run-IsTracked b run) h
Run-IsTracked _ (prints b id msg run) =
    let t = Run-IsTracked b run in
    record { counted = t.counted; followed = t.followed; single = t.single }

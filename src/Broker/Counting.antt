-- ===== src/Broker/Counting.antt =====
-- The counts of the broker (pkg/broker/broker.go) and its tailers agree with its connections.
use mistry.Base.{
  bit, ℕ, suc, ◌+◌, ◌≤◌, ◌<◌, ◌≡◌, refl, inl, inr, Bool, false, none, some, List, [], ◌∷◌, ◌++◌,
  arith, ltb, count_if, count_if-append, Bool-cases, ◌==◌, nat_eq, list_eq, if◌then◌else◌,
  list_beq_iff, zero,
}
use mistry.Base.Dict.{Dict, lookup, insert, erase, lookup-insert}
use mistry.Base.Text.{Str}
use mistry.Base.Int.{ℤ, pos, is_pos, int_eq}
use mistry.Broker.{stop_one, count_in, Client, Broker, new_broker, count_of}

-- The number of the connections that follow a job.
abbrev pub clients_for : Str → Dict ℕ Client → ℕ
clients_for id clients = count_if (λ e. e.1.id == id) clients

insert-fresh :
    (p : ℕ) (c : Client) (cs : Dict ℕ Client)
    → lookup p cs ≡ none
    → insert p c cs ≡ cs ++ ((p, c) ∷ [])
unfolding insert lookup
insert-fresh p c [] h = refl
insert-fresh p c ((q, d) ∷ cs) h = elim (Bool-cases (p == q)) [
  | inl e ↦ ground arith
  | inr e ↦ ground (arith, insert-fresh p c cs)
]

erase-absent : (p : ℕ) (cs : Dict ℕ Client) → count_if (λ e. e.0 == p) cs ≡ 0 → erase p cs ≡ cs
unfolding erase
erase-absent p [] h = refl
erase-absent p ((q, d) ∷ cs) h = ground (arith, erase-absent p cs)

pub erase-count :
    (f : ℕ × Client → Bool) (p : ℕ) (c : Client) (cs : Dict ℕ Client)
    → lookup p cs ≡ some c
    → count_if (λ e. e.0 == p) cs ≤ 1
    → count_if f (erase p cs) + bit (f (p, c)) ≡ count_if f cs
unfolding lookup erase
erase-count f p c [] h l = cc
erase-count f p c ((q, d) ∷ cs) h l = elim (Bool-cases (p == q)) [
  | inl e ↦
      let key : q ≡ p = ground arith in
      let value : d ≡ c = ground arith in
      let entry : f (q, d) ≡ f (p, c) = rw (key, value) refl in
      ground (arith, erase-absent p cs, entry)
  | inr e ↦ ground (arith, erase-count f p c cs)
]

pub stop_one-count :
    (id other : Str) (ts : List Str)
    → 0 < count_if (λ t. t == id) ts
    → count_if (λ t. t == other) (stop_one id ts) + bit (id == other)
      ≡ count_if (λ t. t == other) ts
stop_one-count id other [] h = absurd (omega arith)
stop_one-count id other (t ∷ ts) h = elim (Bool-cases (t == id)) [
  | inl e ↦ ground (arith, list_beq_iff t id, list_beq_iff t other, list_beq_iff id other)
  | inr e ↦ ground (arith, stop_one-count id other ts)
]

-- For each job the count is the number of the connections that follow it, a tailer runs exactly if
-- there is one, and each pointer stands for one connection.
pub record IsTracked (b : Broker) : Type 0 where
  pub counted : (id : Str) → count_of id b ≡ pos (clients_for id b.clients)
  pub followed :
      (id : Str) → count_if (λ t. t == id) b.tailers ≡ bit (ltb 0 (clients_for id b.clients))
  pub single : (p : ℕ) → count_if (λ e. e.0 == p) b.clients ≤ 1

pub absent-count :
    (p : ℕ) (cs : Dict ℕ Client) → lookup p cs ≡ none → count_if (λ e. e.0 == p) cs ≡ 0
unfolding lookup
absent-count p [] h = refl
absent-count p ((q, c) ∷ cs) h = ground (arith, absent-count p cs)

pub fresh-count :
    (f : ℕ × Client → Bool) (p : ℕ) (c : Client) (cs : Dict ℕ Client)
    → lookup p cs ≡ none
    → count_if f (insert p c cs) ≡ count_if f cs + bit (f (p, c))
fresh-count f p c cs h =
    rw (insert-fresh p c cs h) (ground (arith, count_if-append f cs ((p, c) ∷ [])))

pub start-IsTracked : IsTracked new_broker
unfolding lookup
start-IsTracked = record { counted = λ id. refl; followed = λ id. refl; single = λ p. omega arith }

count_in-insert :
    (id key : Str) (v : ℤ) (counts : Dict Str ℤ)
    → count_in id (insert key v counts) ≡ (if id == key then v else count_in id counts)
count_in-insert id key v counts = ground (arith, lookup-insert id key v counts)

-- The counts after a connection for `c.id` was added or removed, where `n` connections follow it
-- afterwards.
pub counted-insert :
    (b : Broker) (key : Str) (n : ℕ) (clients : Dict ℕ Client) (id : Str)
    → IsTracked b
    → clients_for key clients ≡ n
    → ((id == key) ≡ false → clients_for id clients ≡ clients_for id b.clients)
    → count_in id (insert key (pos n) b.clients_count) ≡ pos (clients_for id clients)
counted-insert b key n clients id t h others = elim (Bool-cases (id == key)) [
  | inl e ↦
      let same : id ≡ key = (list_beq_iff id key).0 e in
      rw (count_in-insert id key (pos n) b.clients_count, e, same, h) refl
  | inr e ↦ rw (count_in-insert id key (pos n) b.clients_count, e, others e) (t.counted id)
]

pub is_pos-ltb : (n : ℕ) → is_pos (pos n) ≡ ltb 0 n
is_pos-ltb zero = refl
is_pos-ltb (suc n) = ground arith

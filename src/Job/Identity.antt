-- ===== src/Job/Identity.antt =====
-- cmd/mistryd/job.go: what the id of a job depends on.
use mistry.Base.{
  ◌≡◌, refl, ◌∙◌, arith, true, false, ◌∷◌, [], List, none, nat_eq, list_eq, list_beq_iff, ℕ, All,
  Bool-cases, inl, inr, ap,
}
use mistry.Base.Dict.{lookup}
use mistry.Base.Text.{Str, less}
use mathlib.Core.List.{Permᴰ, append-nil}
use mistry.Job.{
  job_of, hex, Config, insert_key, seed, seed_of_keys, is_opaque, sorted_keys, value_of,
}
use mistry.Types.{Params}

-- The order of `sort.Strings` is a strict total order.
less_asym : (a b : Str) → less a b ≡ true → less b a ≡ false
less_asym [] [] h = refl
less_asym [] (d ∷ t) h = refl
less_asym (c ∷ s) [] h = absurd (cc)
less_asym (c ∷ s) (d ∷ t) h = ground (arith, less_asym s t)

less_eq : (a b : Str) → less a b ≡ false → less b a ≡ false → a ≡ b
less_eq [] [] h k = refl
less_eq [] (d ∷ t) h k = absurd (cc)
less_eq (c ∷ s) [] h k = absurd (cc)
less_eq (c ∷ s) (d ∷ t) h k = ground (arith, less_eq s t)

less_trans : (a b c : Str) → less a b ≡ true → less b c ≡ true → less a c ≡ true
less_trans [] [] c h k = absurd (cc)
less_trans [] (d ∷ t) [] h k = absurd (cc)
less_trans [] (d ∷ t) (e ∷ u) h k = refl
less_trans (c ∷ s) [] u h k = absurd (cc)
less_trans (c ∷ s) (d ∷ t) [] h k = absurd (cc)
less_trans (c ∷ s) (d ∷ t) (e ∷ u) h k = ground (arith, less_trans s t u)

-- Keys can be inserted in any order.
insert_key_comm :
    (k j : Str) (ks : List Str) → insert_key k (insert_key j ks) ≡ insert_key j (insert_key k ks)
unfolding insert_key
insert_key_comm k j [] = ground (arith, less_asym k j, less_eq k j)
insert_key_comm k j (i ∷ ks) = ground (
  arith,
  insert_key_comm k j ks,
  less_asym k j,
  less_eq k j,
  less_trans i k j,
  less_trans i j k,
  less_trans k i j,
  less_trans j i k,
  less_trans k j i,
  less_trans j k i,
  less_asym i k,
  less_asym i j,
  less_eq i k,
  less_eq i j,
)

-- A Go map has each key once.
abbrev pub Distinct : Params → Type 0
Distinct [] = Unit
Distinct ((k, v) ∷ params) = (lookup k params ≡ none) × Distinct params

lookup-perm :
    {d d' : Params} → Permᴰ d d' → Distinct d → Distinct d' × ((k : Str) → lookup k d ≡ lookup k d')
unfolding lookup
lookup-perm Permᴰ.nil u = (tt, λ k. refl)
lookup-perm (Permᴰ.cons {a = (k, v)} {b = (k', v')} e p) (f, u) =
    let (u', same) = lookup-perm p u in ((ground (arith, same k), u'), λ i. ground (arith, same i))
lookup-perm (Permᴰ.swap {a = (k, v)} {b = (j, w)} {a' = (j', w')} {b' = (k', v')} {l} e e')
      (f, (g, u)) =
    (
      (ground (arith, list_beq_iff k j, list_beq_iff j k), (ground (arith, list_beq_iff k j), u)),
      λ i. ground (arith, list_beq_iff k j, list_beq_iff i j, list_beq_iff i k),
    )
lookup-perm (Permᴰ.trans p q) u =
    let (u', same) = lookup-perm p u in
    let (u'', same') = lookup-perm q u' in (u'', λ k. same k ∙ same' k)

sorted_keys-perm : {d d' : Params} → Permᴰ d d' → sorted_keys d ≡ sorted_keys d'
unfolding sorted_keys
sorted_keys-perm Permᴰ.nil = refl
sorted_keys-perm (Permᴰ.cons {a = (k, v)} {b = (k', v')} e p) = ground (arith, sorted_keys-perm p)
sorted_keys-perm (Permᴰ.swap {a = (k, v)} {b = (j, w)} {a' = (j', w')} {b' = (k', v')} {l} e e') =
    ground (arith, insert_key_comm k j (sorted_keys l))
sorted_keys-perm (Permᴰ.trans p q) = sorted_keys-perm p ∙ sorted_keys-perm q

seed_of_keys-lookup :
    (d d' : Params) (ks : List Str)
    → ((k : Str) → lookup k d ≡ lookup k d')
    → seed_of_keys d ks ≡ seed_of_keys d' ks
unfolding seed_of_keys
seed_of_keys-lookup d d' [] same = refl
seed_of_keys-lookup d d' (k ∷ ks) same = ground (arith, same k, seed_of_keys-lookup d d' ks same)

-- The order in which Go ranges over the parameters has no effect on the text whose digest is the
-- id.
pub seed-perm :
    (project group image_tar : Str) {d d' : Params}
    → Permᴰ d d'
    → Distinct d
    → seed project d group image_tar ≡ seed project d' group image_tar
unfolding seed
seed-perm project group image_tar {d} {d'} p u =
    rw (sorted_keys-perm p, seed_of_keys-lookup d d' (sorted_keys d') (lookup-perm p u).1)

insert_key-All :
    (k : Str) (ks : List Str)
    → is_opaque k ≡ false
    → All (λ i. is_opaque i ≡ false) ks
    → All (λ i. is_opaque i ≡ false) (insert_key k ks)
unfolding insert_key
insert_key-All k [] h hs = (h, tt)
insert_key-All k (j ∷ ks) h (hj, hs) = elim (Bool-cases (less j k)) [
  | inl e ↦ rw e (hj, insert_key-All k ks h hs)
  | inr e ↦ rw e (h, (hj, hs))
]

sorted_keys-All : (d : Params) → All (λ i. is_opaque i ≡ false) (sorted_keys d)
unfolding sorted_keys
sorted_keys-All [] = tt
sorted_keys-All ((k, v) ∷ d) = elim (Bool-cases (is_opaque k)) [
  | inl e ↦ rw e (sorted_keys-All d)
  | inr e ↦ rw e (insert_key-All k _ e (sorted_keys-All d))
]

seed_of_keys-opaque :
    (k v : Str) (d : Params) (ks : List Str)
    → is_opaque k ≡ true
    → All (λ i. is_opaque i ≡ false) ks
    → seed_of_keys ((k, v) ∷ d) ks ≡ seed_of_keys d ks
unfolding seed_of_keys lookup
seed_of_keys-opaque k v d [] o h = refl
seed_of_keys-opaque k v d (i ∷ ks) o (h, hs) =
    ground (arith, list_beq_iff i k, seed_of_keys-opaque k v d ks o hs)

-- A parameter whose name begins with `_` has no effect on it either.
pub seed-opaque :
    (project group image_tar k v : Str) (d : Params)
    → is_opaque k ≡ true
    → seed project ((k, v) ∷ d) group image_tar ≡ seed project d group image_tar
unfolding seed sorted_keys
seed-opaque project group image_tar k v d o =
    rw (o, seed_of_keys-opaque k v d (sorted_keys d) o (sorted_keys-All d))

value_of-nil : (k : Str) → value_of ((k, []) ∷ []) k ≡ []
unfolding lookup
value_of-nil k = ground (arith, list_beq_iff k k)

-- The texts are joined with nothing between them: a group and no parameter give the text of no
-- group and a parameter of that name with the empty value.
pub seed-collision :
    (project group image_tar : Str)
    → is_opaque group ≡ false
    → seed project [] group image_tar ≡ seed project ((group, []) ∷ []) [] image_tar
unfolding seed sorted_keys seed_of_keys lookup insert_key
seed-collision project group image_tar h = rw (h, value_of-nil group, append-nil)

module _ (sha256 : Str → Str) (project group image_tar : Str) (cfg : Config) (now later : ℕ) where
  -- The id of a job depends neither on the order in which Go ranges over its parameters, nor on a
  -- parameter whose name begins with `_`, nor on the time.
  pub job_of-same_id :
      (k v : Str) {d d' : Params}
      → Permᴰ d d'
      → Distinct d
      → is_opaque k ≡ true
      → (job_of sha256 project ((k, v) ∷ d) group cfg image_tar now).id
        ≡ (job_of sha256 project d' group cfg image_tar later).id
  unfolding job_of
  job_of-same_id k v {d} p u o =
      ap (λ t. hex (sha256 t))
        (seed-opaque project group image_tar k v d o ∙ seed-perm project group image_tar p u)

  -- Different requests can have one id, whatever the digest: a group without parameters, and no
  -- group with a parameter of the group's name and the empty value.
  pub job_of-id_collision :
      is_opaque group ≡ false
      → (job_of sha256 project [] group cfg image_tar now).id
        ≡ (job_of sha256 project ((group, []) ∷ []) [] cfg image_tar later).id
  unfolding job_of
  job_of-id_collision h = ap (λ t. hex (sha256 t)) (seed-collision project group image_tar h)

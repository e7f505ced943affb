-- ===== src/Base/Dict.antt =====
-- A Go map as an association list: a read of a missing key is `none`, a write replaces.
use mathlib.Core.Path.{◌≡◌, refl}
use mathlib.Core.Option.{Option, none, some}
use mathlib.Core.List.{List, [], ◌∷◌}
use native.Mathlib.Omega.{arith}
use mistry.Base.Tests.{if◌then◌else◌}
use mistry.Base.Equality.{Eq, ◌==◌}
use mistry.Base.Lists.{count_if}

abbrev pub Dict {ℓ κ} : Type ℓ → Type κ → Type (ℓ ⊔ κ)
Dict K V = List (K × V)

module _ {ℓ κ} {K : Type ℓ} {V : Type κ} ⦃e : Eq K⦄ where
  unfoldable pub lookup : K → Dict K V → Option V
  lookup k [] = none
  lookup k ((j, v) ∷ d) = if k == j then some v else lookup k d

  -- `d[k] = v`
  unfoldable pub insert : K → V → Dict K V → Dict K V
  insert k v [] = (k, v) ∷ []
  insert k v ((j, w) ∷ d) = if k == j then (k, v) ∷ d else (j, w) ∷ insert k v d

  -- `delete(d, k)`
  unfoldable pub erase : K → Dict K V → Dict K V
  erase k [] = []
  erase k ((j, w) ∷ d) = let rest = erase k d in if k == j then rest else (j, w) ∷ rest

  pub lookup-insert :
      (j k : K) (v : V) (d : Dict K V)
      → lookup j (insert k v d) ≡ (if j == k then some v else lookup j d)
  unfolding insert lookup
  lookup-insert j k v [] = refl
  lookup-insert j k v ((i, w) ∷ d) =
      ground (arith, e.same_iff j k, e.same_iff k i, e.same_iff j i, lookup-insert j k v d)

  pub lookup-erase :
      (j k : K) (d : Dict K V) → lookup j (erase k d) ≡ (if j == k then none else lookup j d)
  unfolding erase lookup
  lookup-erase j k [] = ground arith
  lookup-erase j k ((i, w) ∷ d) =
      ground (arith, e.same_iff j k, e.same_iff k i, e.same_iff j i, lookup-erase j k d)

  -- A key that no entry has.
  pub lookup-none :
      (k : K) (d : Dict K V) → count_if (λ entry. entry.0 == k) d ≡ 0 → lookup k d ≡ none
  unfolding lookup
  lookup-none k [] h = refl
  lookup-none k ((j, v) ∷ d) h = ground (arith, e.same_iff j k, e.same_iff k j, lookup-none k d)

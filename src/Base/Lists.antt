-- ===== src/Base/Lists.antt =====
-- Lists measured by native numbers, and membership by recursion.
use Prim.Native.Nat.{ℕ, suc, ◌+◌, ◌≤◌, ◌<◌}
use mathlib.Core.Path.{◌≡◌, refl, ap}
use mathlib.Core.Bool.{Bool, true, false, ◌||◌}
use mathlib.Core.List.{List, [], ◌∷◌, ◌++◌}
use native.Mathlib.Omega.{arith}
use mistry.Base.Tests.{if◌then◌else◌, bit, Bool-cases}
use mathlib.Core.Logic.{inl, inr}
use mistry.Base.Equality.{Eq, ◌==◌}

module _ {ℓ} {A : Type ℓ} where
  abbrev pub length : List A → ℕ
  length [] = 0
  length (x ∷ xs) = suc (length xs)

  pub length-append : (xs ys : List A) → length (xs ++ ys) ≡ length xs + length ys
  length-append [] ys = omega arith
  length-append (x ∷ xs) ys = omega (arith, length-append xs ys)

  -- The number of elements that pass a test.
  abbrev pub count_if : (A → Bool) → List A → ℕ
  count_if p [] = 0
  count_if p (x ∷ xs) = let rest = count_if p xs in if p x then suc rest else rest

  pub count_if-append :
      (p : A → Bool) (xs ys : List A) → count_if p (xs ++ ys) ≡ count_if p xs + count_if p ys
  count_if-append p [] ys = omega arith
  count_if-append p (x ∷ xs) ys = ground (arith, count_if-append p xs ys)

  -- An element in the middle of the list changes.
  pub count_if-replace :
      (p : A → Bool) (all before after : List A) (x y : A)
      → all ≡ before ++ (x ∷ after)
      → count_if p (before ++ (y ∷ after)) + bit (p x) ≡ count_if p all + bit (p y)
  count_if-replace p all before after x y h =
      rw h
        (ground (arith, count_if-append p before (x ∷ after), count_if-append p before (y ∷ after)))

  -- What is counted stands somewhere.
  pub count_if-split :
      (p : A → Bool) (xs : List A)
      → 0 < count_if p xs
      → (before : List A) × ((x : A) × ((after : List A) × ((xs ≡ before ++ (x ∷ after))
              × (p x ≡ true))))
  count_if-split p [] h = absurd (omega arith)
  count_if-split p (x ∷ xs) h = elim (Bool-cases (p x)) [
    | inl e ↦ ([], (x, (xs, (refl, e))))
    | inr e ↦
        let rest = count_if-split p xs (ground arith) in
        (x ∷ rest.0, (rest.1.0, (rest.1.1.0, (ap (λ ys. x ∷ ys) rest.1.1.1.0, rest.1.1.1.1))))
  ]

  pub count-le : (p : A → Bool) (xs : List A) → count_if p xs ≤ length xs
  count-le p [] = omega arith
  count-le p (x ∷ xs) = ground (arith, count-le p xs)

  abbrev pub keep_if : (A → Bool) → List A → List A
  keep_if p [] = []
  keep_if p (x ∷ xs) = let rest = keep_if p xs in if p x then x ∷ rest else rest

  abbrev pub All {κ} : (A → Type κ) → List A → Type κ
  All P [] = Unit
  All P (x ∷ xs) = P x × All P xs

  pub All-append {κ} : (P : A → Type κ) (xs ys : List A) → All P xs → All P ys → All P (xs ++ ys)
  All-append P [] ys hx hy = hy
  All-append P (x ∷ xs) ys hx hy = (hx.0, All-append P xs ys hx.1 hy)

  pub All-split {κ} :
      (P : A → Type κ) (xs ys : List A) (x : A)
      → All P (xs ++ (x ∷ ys))
      → All P xs × (P x × All P ys)
  All-split P [] ys x h = (tt, h)
  All-split P (z ∷ xs) ys x h = let rest = All-split P xs ys x h.1 in ((h.0, rest.0), rest.1)

  -- An element in the middle of the list changes.
  pub All-replace {κ} :
      (P : A → Type κ) (xs ys : List A) (x y : A)
      → P y
      → All P (xs ++ (x ∷ ys))
      → All P (xs ++ (y ∷ ys))
  All-replace P xs ys x y hy h =
      let parts = All-split P xs ys x h in All-append P xs (y ∷ ys) parts.0 (hy, parts.1.1)

module _ {ℓ} {A : Type ℓ} ⦃e : Eq A⦄ where
  abbrev pub contains : List A → A → Bool
  contains [] a = false
  contains (x ∷ xs) a = a == x || contains xs a

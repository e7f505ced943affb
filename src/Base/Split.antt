-- ===== src/Base/Split.antt =====
-- `strings.Split` of texts whose separators are known.
use mathlib.Core.Path.{◌≡◌, refl}
use mathlib.Core.Logic.{inl, inr}
use mathlib.Core.Bool.{false}
use mathlib.Core.List.{List, [], ◌∷◌, ◌++◌}
use native.Mathlib.Omega.{arith}
use Prim.Native.Nat.{ℕ}
use mistry.Base.Tests.{Bool-cases}
use mistry.Base.Equality.{◌==◌, nat_eq}
use mistry.Base.Lists.{contains}
use mistry.Base.Text.{Str, split}

split-cons : (s : Str) (sep : ℕ) → (w : Str) × ((ws : List Str) × (split s sep ≡ w ∷ ws))
unfolding split
split-cons [] sep = ([], ([], refl))
split-cons (c ∷ s) sep =
    let rest = split-cons s sep in
    elim (Bool-cases (c == sep)) [
      | inl e ↦ ([], (split s sep, ground (arith, rest.1.1)))
      | inr e ↦ (c ∷ rest.0, (rest.1.0, ground (arith, rest.1.1)))
    ]

-- The first separator ends the first piece.
pub split-append :
    (s rest : Str) (sep : ℕ)
    → contains s sep ≡ false
    → split (s ++ (sep ∷ rest)) sep ≡ s ∷ split rest sep
unfolding split
split-append [] rest sep h = ground (arith, (split-cons rest sep).1.1, nat_eq.same_iff sep sep)
split-append (c ∷ s) rest sep h =
    ground (arith, split-append s rest sep, nat_eq.same_iff c sep, nat_eq.same_iff sep c)

-- A text without a separator is one piece.
pub split-whole : (s : Str) (sep : ℕ) → contains s sep ≡ false → split s sep ≡ s ∷ []
unfolding split
split-whole [] sep h = refl
split-whole (c ∷ s) sep h =
    ground (arith, split-whole s sep, nat_eq.same_iff c sep, nat_eq.same_iff sep c)

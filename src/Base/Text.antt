-- ===== src/Base/Text.antt =====
-- Go strings as lists of bytes, with what the program uses of the package `strings`.
use Prim.Native.Nat.{ℕ, zero, suc, ◌+◌, ◌/◌, ◌%◌}
use Prim.Native.Char.{code}
use Prim.Native.String.{String}
use mathlib.Core.Path.{◌≡◌, refl}
use mathlib.Core.Bool.{Bool, true, false, ◌&&◌, ◌||◌}
use mathlib.Core.Option.{Option, none, some}
use mathlib.Core.List.{List, [], ◌∷◌, ◌++◌}
use native.Mathlib.Omega.{arith}
use mistry.Base.Tests.{if◌then◌else◌, ltb}
use mistry.Base.Equality.{Eq, ◌==◌, nat_eq, list_eq, eq_refl}
use mistry.Base.Lists.{contains}

abbrev pub Str : Type 0
Str = List ℕ

-- The bytes of an ASCII literal.
abbrev pub codes : String → Str
codes String.[] = []
codes (String.◌∷◌ c s) = code c ∷ codes s

-- `strings.HasPrefix`, with the rest that follows the prefix. The pieces of a path have this too.
module _ {ℓ} {A : Type ℓ} ⦃e : Eq A⦄ where
  abbrev pub strip : List A → List A → Option (List A)
  strip [] s = some s
  strip (c ∷ p) [] = none
  strip (c ∷ p) (d ∷ s) = if c == d then strip p s else none

  pub strip_append : (p s : List A) → strip p (p ++ s) ≡ some s
  strip_append [] s = refl
  strip_append (c ∷ p) s = rw (eq_refl c) (strip_append p s)

  pub strip_sound : (p s r : List A) → strip p s ≡ some r → s ≡ p ++ r
  strip_sound [] s r h = ground arith
  strip_sound (c ∷ p) [] r h = cc
  strip_sound (c ∷ p) (d ∷ s) r h = ground (arith, e.same_iff c d, strip_sound p s r)

abbrev pub has_prefix : Str → Str → Bool
has_prefix s p = elim (strip p s) [ none ↦ false | some _ ↦ true ]

-- `strings.TrimPrefix`
abbrev pub trim_prefix : Str → Str → Str
trim_prefix s p = elim (strip p s) [ none ↦ s | some r ↦ r ]

-- `strings.TrimLeft`: all leading bytes of the cutset go.
unfoldable pub trim_left : Str → Str → Str
trim_left [] cutset = []
trim_left (c ∷ s) cutset =
    let rest = trim_left s cutset in if contains cutset c then rest else c ∷ s

-- `strings.Split` at a separator of one byte: never empty.
unfoldable pub split : Str → ℕ → List Str
split [] sep = [] ∷ []
split (c ∷ s) sep = elim (split s sep) [
  | [] ↦ []
  | w ∷ ws ↦ if c == sep then [] ∷ w ∷ ws else (c ∷ w) ∷ ws
]

-- `strings.Join`
abbrev pub intercalate : Str → List Str → Str
intercalate sep [] = []
intercalate sep (w ∷ []) = w
intercalate sep (w ∷ v ∷ ws) = w ++ (sep ++ intercalate sep (v ∷ ws))

-- The order of `sort.Strings`: bytewise, a proper prefix first.
abbrev pub less : Str → Str → Bool
less [] [] = false
less [] (d ∷ t) = true
less (c ∷ s) [] = false
less (c ∷ s) (d ∷ t) = ltb c d || c == d && less s t

-- `%d` of a number; a number has at most as many digits as its value, or one.
digits : ℕ → ℕ → Str
digits zero n = []
digits (suc fuel) n = elim (ltb n 10) [
  | true ↦ (b'0' + n) ∷ []
  | false ↦ digits fuel (n / 10) ++ ((b'0' + n % 10) ∷ [])
]

unfoldable pub decimal : ℕ → Str
unfolding digits
decimal n = digits (suc n) n

-- `s[:n]`, which panics if `s` is shorter.
abbrev pub first_bytes : ℕ → Str → Option Str
first_bytes zero s = some []
first_bytes (suc n) [] = none
first_bytes (suc n) (c ∷ s) = elim (first_bytes n s) [ none ↦ none | some t ↦ some (c ∷ t) ]

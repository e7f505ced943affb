-- ===== src/Index/Named.antt =====
-- What the code of the index (cmd/mistryd/server.go) returns: names that are one piece of a path.
use mistry.Base.{
  ◌≡◌, refl, inl, inr, Bool, true, false, Option, none, some, List, [], ◌∷◌, arith, All, Bool-cases,
  nat_eq, list_eq, if◌then◌else◌, ◌∙◌,
}
use mistry.Base.Text.{Str, strip}
use mistry.Types.{GoError, Result, ok, err}
use mistry.Paths.{FilePath, is_name}
use mistry.System.{pure, throw, try, State, ◌>>=◌, T, bind_result}
use mistry.Index.{read_dir, Entry, insert_entry, entry_of, list_entries, directories}
use mistry.Files.{is_dir, Files}
use mathlib.Core.Path.{subst}
use mistry.Files.Laws.{OpKeeps}
use mistry.System.Laws.{Keeps}
use mistry.System.Steps.{bind_ok}

-- What the code returns satisfies `P`.
pub record Returns {A : Type 0} (P : A → Type 0) (m : T A) : Type 0 where
  pub at : (s : State) (a : A) → (m s).0 ≡ ok a → P a

module _ {A B : Type 0} (x : FilePath) (P : A → Type 0) where
  bind_where :
      (f : A → T B) (r : Result A) (s : State)
      → ((a : A) → r ≡ ok a → P a)
      → ((a : A) → P a → Keeps x (f a))
      → (bind_result f (r, s)).1.files.node x ≡ s.files.node x
  bind_where f (ok a) s p h = (h a (p a refl)).at s
  bind_where f (err e) s p h = refl

  -- The second part leaves `x` alone for what the first can return.
  pub Keeps-bind_where :
      (m : T A) (f : A → T B)
      → Keeps x m
      → Returns P m
      → ((a : A) → P a → Keeps x (f a))
      → Keeps x (m >>= f)
  Keeps-bind_where m f h p k = record { at = λ s. bind_where f (m s).0 (m s).1 (p.at s) k ∙ h.at s }

module _ {A B : Type 0} (P : B → Type 0) where
  pub Returns-bind_where :
      (Q : A → Type 0) (m : T A) (f : A → T B)
      → Returns Q m
      → ((a : A) → Q a → Returns P (f a))
      → Returns P (m >>= f)
  Returns-bind_where Q m f q h = record {
    at = λ s b e.
        let parts = bind_ok m f s b e in (h parts.0 (q.at s parts.0 parts.1)).at (m s).1 b parts.3;
  }

module _ {A : Type 0} (P : A → Type 0) where
  pub Returns-pure : (a : A) → P a → Returns P (pure a)
  Returns-pure a h = record { at = λ s b e. subst P (ground arith) h }

  pub Returns-throw : (e : GoError) → Returns P (throw e)
  Returns-throw e = record { at = λ s b h. absurd cc }

  pub Returns-if :
      (b : Bool) (m n : T A) → Returns P m → Returns P n → Returns P (if b then m else n)
  Returns-if true m n h k = h
  Returns-if false m n h k = k

-- The value of a result without an error satisfies `P`.
abbrev pub OkHas : {A : Type 0} → (A → Type 0) → Result A → Type 0
OkHas P (ok a) = P a
OkHas P (err e) = Unit

OkHas-of : {A : Type 0} (P : A → Type 0) (r : Result A) → ((a : A) → r ≡ ok a → P a) → OkHas P r
OkHas-of P (ok a) h = h a refl
OkHas-of P (err e) h = tt

pub Returns-try : {A : Type 0} (P : A → Type 0) (m : T A) → Returns P m → Returns (OkHas P) (try m)
Returns-try P m h = record {
  at = λ s r e. subst (OkHas P) (ground arith) (OkHas-of P (m s).0 (h.at s));
}

pub anything : {A : Type 0} (m : T A) → Returns (λ _. Unit {0}) m
anything m = record { at = λ s a h. tt }

abbrev pub HasName : Entry → Type 0
HasName e = is_name e.name ≡ true

abbrev pub IsName : Str → Type 0
IsName s = is_name s ≡ true

insert_entry-All :
    (e : Entry) (es : List Entry) → HasName e → All HasName es → All HasName (insert_entry e es)
unfolding insert_entry
insert_entry-All e [] h a = (h, tt)
insert_entry-All e (f ∷ es) h a = ground (arith, insert_entry-All e es h a.1)

All-if :
    {A : Type 0} (P : A → Type 0) (b : Bool) (xs ys : List A)
    → All P xs
    → All P ys
    → All P (if b then xs else ys)
All-if P true xs ys h k = h
All-if P false xs ys h k = k

entry_of-All :
    (fs : Files) (x : FilePath) (o : Option FilePath) (es : List Entry)
    → All HasName es
    → All HasName (entry_of fs x o es)
unfolding entry_of
entry_of-All fs x none es a = a
entry_of-All fs x (some []) es a = a
entry_of-All fs x (some (name ∷ more)) es a = elim (Bool-cases (is_name name)) [
  | inl e ↦ All-if HasName _ _ es (insert_entry-All _ es e a) a
  | inr e ↦ ground (arith, a)
]

list_entries-All :
    (fs : Files) (p : FilePath) (xs : List FilePath) → All HasName (list_entries fs p xs)
unfolding list_entries
list_entries-All fs p [] = tt
list_entries-All fs p (x ∷ xs) = entry_of-All fs x (strip p x) _ (list_entries-All fs p xs)

pub read_dir-All :
    (p : FilePath) (fs : Files) (es : List Entry) → (read_dir p fs).0 ≡ ok es → All HasName es
unfolding read_dir
read_dir-All p fs es h = elim (Bool-cases (is_dir (fs.node p))) [
  | inl e ↦ subst (All HasName) (ground arith) (list_entries-All fs p fs.known)
  | inr e ↦ ground arith
]

pub directories-All : (es : List Entry) → All HasName es → All IsName (directories es)
unfolding directories
directories-All [] a = tt
directories-All (e ∷ es) a = ground (arith, directories-All es a.1)

pub OpKeeps-read_dir : (x p : FilePath) → OpKeeps x (read_dir p)
unfolding read_dir
OpKeeps-read_dir x p fs = ground arith

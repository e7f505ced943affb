-- ===== src/Tailer/Growing.antt =====
-- What the reader of a growing file (pkg/tailer/tailer.go) gets: what is appended, each byte once.
use mathlib.Core.List.{append_assoc, append-nil}
use mistry.Base.{
  ℕ, zero, suc, ◌≤◌, ◌<◌, ◌≡◌, refl, inl, inr, Option, none, some, List, [], ◌∷◌, ◌++◌, arith,
  length, length-append, Bool-cases, ◌==◌, nat_eq, list_eq, list_beq_iff,
}
use mistry.Base.Text.{Str}
use mistry.Types.{ok, value_or}
use mathlib.Core.Path.{subst, sym, ap, ◌∙◌}
use mistry.Paths.{FilePath}
use mistry.Files.{text, read_file}
use mistry.System.{Env, State, syscall}
use mistry.System.Steps.{bind_ok, syscall_ok}
use mistry.Tailer.{Tailer, take, drop, size, new_tailer, bytes_at, moved_by, read, read_on}

-- The file only grows.
unfoldable pub Grows : Str → List Str → Type 0
Grows s [] = Unit
Grows s (t ∷ ts) = ((more : Str) × (t ≡ s ++ more)) × Grows t ts

abbrev pub last_of : Str → List Str → Str
last_of s [] = s
last_of s (t ∷ ts) = last_of t ts

abbrev pub repeated : ℕ → Str → List Str
repeated zero s = []
repeated (suc n) s = s ∷ repeated n s

-- What is got from every turn, one read at each.
follow : ℕ → Tailer → List Str → Str
follow buffer t [] = []
follow buffer t (s ∷ polls) =
    let rest = follow buffer (moved_by (bytes_at buffer t s) t) polls in bytes_at buffer t s ++ rest

take-drop : (n : ℕ) (s : Str) → take n s ++ drop n s ≡ s
take-drop zero s = refl
take-drop (suc n) [] = refl
take-drop (suc n) (c ∷ s) = ap (λ r. c ∷ r) (take-drop n s)

drop-append : (s rest : Str) → drop (length s) (s ++ rest) ≡ rest
drop-append [] rest = refl
drop-append (c ∷ s) rest = drop-append s rest

abbrev at_end : Str → Tailer
at_end s = record { offset = length s }

moved-at_end : (p got : Str) → moved_by got (at_end p) ≡ at_end (p ++ got)
moved-at_end p got = ap (λ n. record { offset = n }) (sym (length-append p got))

bytes-at_end : (buffer : ℕ) (p q : Str) → bytes_at buffer (at_end p) (p ++ q) ≡ take buffer q
bytes-at_end buffer p q = ap (take buffer) (drop-append p q)

-- One read from the end of what was got.
follow-step :
    (buffer : ℕ) (p q : Str) (polls : List Str)
    → follow buffer (at_end p) ((p ++ q) ∷ polls)
      ≡ take buffer q ++ follow buffer (at_end (p ++ take buffer q)) polls
unfolding follow
follow-step buffer p q polls = rw (bytes-at_end buffer p q, moved-at_end p (take buffer q)) refl

drop-length : (n : ℕ) (s : Str) → length (drop n s) ≤ length s
drop-length zero s = omega arith
drop-length (suc n) [] = omega arith
drop-length (suc n) (c ∷ s) = omega (arith, drop-length n s)

-- What was taken, and what is left, of the rest.
taken-parts : (buffer : ℕ) (p q : Str) → (p ++ take buffer q) ++ drop buffer q ≡ p ++ q
taken-parts buffer p q =
    append_assoc p (take buffer q) (drop buffer q) ∙ ap (λ r. p ++ r) (take-drop buffer q)

left-length : (buffer n : ℕ) (q : Str) → length q ≤ suc n → length (drop (suc buffer) q) ≤ n
left-length buffer n [] h = omega arith
left-length buffer n (c ∷ q) h = omega (arith, h, drop-length buffer q)

-- Enough turns at a file that stays as it is give the rest of it.
follow-repeated :
    (buffer n : ℕ) (p q : Str)
    → length q ≤ n
    → follow (suc buffer) (at_end p) (repeated n (p ++ q)) ≡ q
unfolding follow
follow-repeated buffer zero p [] h = refl
follow-repeated buffer zero p (c ∷ q) h = absurd (omega (arith, h))
follow-repeated buffer (suc n) p q h =
    let p' = p ++ take (suc buffer) q in
    let q' = drop (suc buffer) q in
    follow-step (suc buffer) p q (repeated n (p ++ q))
    ∙ ap (λ s. take (suc buffer) q ++ follow (suc buffer) (at_end p') (repeated n s))
        (sym (taken-parts (suc buffer) p q))
    ∙ ap (λ r. take (suc buffer) q ++ r) (follow-repeated buffer n p' q' (left-length buffer n q h))
    ∙ take-drop (suc buffer) q

follow-Grows :
    (buffer n : ℕ) (p q s : Str) (polls : List Str)
    → s ≡ p ++ q
    → Grows s polls
    → length (last_of s polls) ≤ n
    → p ++ follow (suc buffer) (at_end p) (polls ++ repeated n (last_of s polls)) ≡ last_of s polls
unfolding Grows
follow-Grows buffer n p q s [] e g h =
    ap (λ r. p ++ follow (suc buffer) (at_end p) (repeated n r)) e
    ∙ ap (λ r. p ++ r)
        (follow-repeated buffer n p q (omega (arith, h, ap (λ r. length r) e, length-append p q)))
    ∙ sym e
follow-Grows buffer n p q s (t ∷ ts) e ((more, grown), g) h =
    let u = q ++ more in
    let p' = p ++ take (suc buffer) u in
    let whole : t ≡ p ++ u = grown ∙ ap (λ r. r ++ more) e ∙ append_assoc p q more in
    let polls = ts ++ repeated n (last_of t ts) in
    ap (λ r. p ++ follow (suc buffer) (at_end p) (r ∷ polls)) whole
    ∙ ap (λ r. p ++ r) (follow-step (suc buffer) p u polls)
    ∙ sym (append_assoc p (take (suc buffer) u) (follow (suc buffer) (at_end p') polls))
    ∙ follow-Grows buffer n p' (drop (suc buffer) u) t ts
        (whole ∙ sym (taken-parts (suc buffer) p u)) g h

-- One call of `Read`, among the turns.
IsRead : ℕ → Tailer → List Str → Option (Str × (Tailer × List Str)) → Type 0
IsRead buffer t polls none = follow buffer t polls ≡ []
IsRead buffer t polls (some (got, (moved, rest))) =
    (follow buffer t polls ≡ got ++ follow buffer moved rest) × (length rest < length polls)

follow-skip :
    (buffer : ℕ) (t : Tailer) (s : Str) (polls : List Str)
    → bytes_at buffer t s ≡ []
    → follow buffer t (s ∷ polls) ≡ follow buffer t polls
unfolding follow
follow-skip buffer t s polls e =
    ap (λ b. b ++ follow buffer (moved_by b t) polls) e
    ∙ ap (λ n. follow buffer (record { offset = n }) polls) (omega arith)

IsRead-skip :
    (buffer : ℕ) (t : Tailer) (s : Str) (polls : List Str) (r : Option (Str × (Tailer × List Str)))
    → bytes_at buffer t s ≡ []
    → IsRead buffer t polls r
    → IsRead buffer t (s ∷ polls) r
unfolding IsRead
IsRead-skip buffer t s polls none e h = follow-skip buffer t s polls e ∙ h
IsRead-skip buffer t s polls (some (got, (moved, rest))) e (h, l) =
    (follow-skip buffer t s polls e ∙ h, omega (arith, l))

read-IsRead :
    (buffer : ℕ) (t : Tailer) (polls : List Str) → IsRead buffer t polls (read buffer t polls)
unfolding read IsRead follow
read-IsRead buffer t [] = refl
read-IsRead buffer t (s ∷ polls) = elim (Bool-cases (bytes_at buffer t s == [])) [
  | inl e ↦ subst (IsRead buffer t (s ∷ polls)) (ground (arith, e)) (
      IsRead-skip buffer t s polls (read buffer t polls)
        (ground (arith, e, list_beq_iff (bytes_at buffer t s) [])) (read-IsRead buffer t polls))
  | inr e ↦
      subst (IsRead buffer t (s ∷ polls))
        {x = some (bytes_at buffer t s, (moved_by (bytes_at buffer t s) t, polls))}
        (ground (arith, e)) (refl, omega arith)
]

-- As many calls as there are turns get all that there is.
read_on-given :
    (calls buffer : ℕ) (t : Tailer) (polls : List Str) (r : Option (Str × (Tailer × List Str)))
    → r ≡ read buffer t polls
    → IsRead buffer t polls r
    → ((moved : Tailer) (rest : List Str)
        → length rest < length polls
        → read_on calls buffer moved rest ≡ follow buffer moved rest)
    → read_on (suc calls) buffer t polls ≡ follow buffer t polls
unfolding read_on IsRead
read_on-given calls buffer t polls none e h ih = ground (arith, e, h)
read_on-given calls buffer t polls (some (got, (moved, rest))) e (h, l) ih =
    ground (arith, e, h, ih moved rest l)

read_on-follow :
    (calls buffer : ℕ) (t : Tailer) (polls : List Str)
    → length polls ≤ calls
    → read_on calls buffer t polls ≡ follow buffer t polls
unfolding read_on follow
read_on-follow zero buffer t [] h = refl
read_on-follow zero buffer t (s ∷ polls) h = absurd (omega (arith, h))
read_on-follow (suc calls) buffer t polls h =
    read_on-given calls buffer t polls (read buffer t polls) refl (read-IsRead buffer t polls)
      λ moved rest l. read_on-follow calls buffer moved rest (omega (arith, h, l))

new_tailer-at_end :
    (env : Env) (path : FilePath) (s : State) (t : Tailer) (p : Str)
    → (read_file path s.files).0 ≡ ok (text p)
    → (new_tailer env path s).0 ≡ ok t
    → t ≡ at_end p
unfolding new_tailer
new_tailer-at_end env path s t p h e =
    let (content, opened, _, rest) = bind_ok (syscall env (read_file path)) _ s t e in
    let (_, _, _, made) = bind_ok (syscall env (λ fs. (ok tt, fs))) _ _ t rest in
    let same : text p ≡ content =
      ap (value_or (text p)) (sym h ∙ (syscall_ok env (read_file path) s content opened).0) in
    sym (ap (value_or t) made) ∙ ap (λ c. record { offset = size c }) (sym same)

-- If a log that holds `p` is opened and then only grows, and the file is looked at often enough after
-- the last change, at least once for each of its bytes, then the calls of Read, with any buffer that
-- is not empty, give what was appended, and each byte once.
pub read_on-appended :
    (env : Env) (path : FilePath) (s : State) (t : Tailer) (p : Str) (polls : List Str)
    (buffer turns calls : ℕ)
    → (read_file path s.files).0 ≡ ok (text p)
    → (new_tailer env path s).0 ≡ ok t
    → Grows p polls
    → length (last_of p polls) ≤ turns
    → length (polls ++ repeated turns (last_of p polls)) ≤ calls
    → p ++ read_on calls (suc buffer) t (polls ++ repeated turns (last_of p polls))
      ≡ last_of p polls
read_on-appended env path s t p polls buffer turns calls h e g enough often =
    let all = polls ++ repeated turns (last_of p polls) in
    ap (λ r. p ++ r) (read_on-follow calls (suc buffer) t all often)
    ∙ ap (λ x. p ++ follow (suc buffer) x all) (new_tailer-at_end env path s t p h e)
    ∙ follow-Grows buffer turns p [] p polls (sym (append-nil p)) g enough

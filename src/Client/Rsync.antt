-- ===== src/Client/Rsync.antt =====
-- What Rsync.Copy of cmd/mistry/transport.go asks the server's rsync module for.
use mistry.Base.{
  if◌then◌else◌, refl, arith, ◌≡◌, some, [], ◌∷◌, ◌++◌, Bool, true, false, nat_eq, list_eq,
}
use mistry.Base.Text.{Str, codes, has_prefix, strip_append}
use mistry.Client.{from_first, rsync_command, rsync_words, CopyArgs}

-- The text `p` begins nowhere in `pre ++ s` before `s`.
abbrev pub is_clear : Str → Str → Str → Bool
is_clear p [] s = true
is_clear p (c ∷ pre) s = elim (has_prefix (c ∷ (pre ++ s)) p) [
  | true ↦ false
  | false ↦ is_clear p pre s
]

from_first-here : (p s : Str) → from_first p (p ++ s) ≡ some (p ++ s)
unfolding from_first
from_first-here [] [] = refl
from_first-here [] (c ∷ s) = refl
from_first-here (c ∷ p) s = ground (arith, strip_append (c ∷ p) s)

from_first-append :
    (p : Str) (pre s : Str)
    → is_clear p pre (p ++ s) ≡ true
    → from_first p (pre ++ (p ++ s)) ≡ some (p ++ s)
unfolding from_first
from_first-append p [] s h = from_first-here p s
from_first-append p (c ∷ pre) s h = ground (arith, from_first-append p pre s)

-- Rsync asks the module `mistry` for the path from the project on, if the project's name begins
-- nowhere before that in the source, and with `--delete` exactly if the target is to be cleared.
pub rsync_command_lem :
    (a : CopyArgs) (pre rest : Str)
    → a.src ≡ pre ++ (a.project ++ rest)
    → is_clear a.project pre (a.project ++ rest) ≡ true
    → rsync_command a
      ≡ some (
          (codes "rsync" ∷ codes "-rtlp" ∷ (if a.clear_dst then codes "--delete" ∷ [] else []))
          ++ ((a.user ++ (codes "@" ++ (a.host ++ (codes "::mistry/" ++ (a.project ++ rest)))))
              ∷ a.dst
              ∷ []))
unfolding rsync_command rsync_words
rsync_command_lem a pre rest e h = rw (e, from_first-append a.project pre rest h) refl

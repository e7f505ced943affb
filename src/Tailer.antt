-- ===== src/Tailer.antt =====
-- pkg/tailer: a file that is read from its end on, as it grows.
pub mod Growing
use mistry.Base.{
  ℕ, zero, suc, ◌+◌, Option, none, some, List, [], ◌∷◌, ◌++◌, length, ◌==◌, nat_eq, list_eq,
  if◌then◌else◌,
}
use mistry.Base.Text.{Str}
use mistry.Types.{ok}
use mistry.Paths.{FilePath}
use mistry.Files.{Content, text, json_info, read_file}
use mistry.System.{Env, T, pure, syscall, ◌>>=◌, ◌>>◌}

-- The first bytes, and the rest.
abbrev pub take : ℕ → Str → Str
take zero s = []
take (suc n) [] = []
take (suc n) (c ∷ s) = c ∷ take n s

abbrev pub drop : ℕ → Str → Str
drop zero s = s
drop (suc n) [] = []
drop (suc n) (c ∷ s) = drop n s

-- An open file, and where the next read begins.
pub record Tailer : Type 0 where
  pub offset : ℕ

abbrev size : Content → ℕ
size (text s) = length s
size (json_info i) = 0

-- `New`: the file is opened, and its end is sought. A log is a text.
unfoldable pub new_tailer : Env → FilePath → T Tailer
new_tailer env path = do
  content ← syscall env (read_file path)
  syscall env (λ fs. (ok tt, fs))
  pure (record { offset = size content })

-- What `Read` of the file gives: some of the bytes behind the offset, none at the end of the file.
abbrev pub bytes_at : ℕ → Tailer → Str → Str
bytes_at buffer t content = take buffer (drop t.offset content)

abbrev pub moved_by : Str → Tailer → Tailer
moved_by got t = record { offset = t.offset + length got }

-- `Tailer.Read` with a buffer that is not empty. `polls` are the bytes of the file at each turn of the
-- loop; where they run out, it still waits. It gives the bytes, and what is left of the turns.
unfoldable pub read : ℕ → Tailer → List Str → Option (Str × (Tailer × List Str))
read buffer t [] = none
read buffer t (content ∷ polls) =
    let later = read buffer t polls in
    if bytes_at buffer t content == []
    then later
    else some (bytes_at buffer t content, (moved_by (bytes_at buffer t content) t, polls))

-- All that `calls` calls of `Read`, one after the other, give a reader.
unfoldable pub read_on : (calls : ℕ) → ℕ → Tailer → List Str → Str
read_on zero buffer t polls = []
read_on (suc calls) buffer t polls = elim (read buffer t polls) [
  | none ↦ []
  | some (got, (moved, rest)) ↦ got ++ read_on calls buffer moved rest
]

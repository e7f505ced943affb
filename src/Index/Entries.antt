-- ===== src/Index/Entries.antt =====
-- The listings that the server reads (cmd/mistryd/server.go).
use mistry.Base.{◌≡◌, refl, List, [], ◌∷◌, arith, keep_if, nat_eq, list_eq}
use mathlib.Core.List.{map}
use mistry.Base.Text.{Str}
use mistry.Types.{value_or}
use mistry.Paths.{FilePath}
use mistry.Files.{Files}
use mistry.Index.{Entry, read_dir, directories}

-- The names in a directory, none if it cannot be read.
abbrev pub entries_at : Files → FilePath → List Entry
entries_at fs p = value_or [] (read_dir p fs).0

abbrev pub folders_of : List Entry → List Str
folders_of es = map (λ (e : Entry). e.name) (keep_if (λ (e : Entry). e.is_directory) es)

-- The names of the directories in a directory.
abbrev pub folders_at : Files → FilePath → List Str
folders_at fs p = folders_of (entries_at fs p)

pub directories-folders : (es : List Entry) → directories es ≡ folders_of es
unfolding directories
directories-folders [] = refl
directories-folders (e ∷ es) = ground (arith, directories-folders es)

pub read_dir-files : (p : FilePath) (fs : Files) → (read_dir p fs).1 ≡ fs
unfolding read_dir
read_dir-files p fs = ground arith

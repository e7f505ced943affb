-- ===== src/Files.antt =====
-- The file system as the packages `os`, `ioutil` and `filepath` show it: one node for each path.
-- Symbolic links are followed once and at the last piece only; the program links to directories.
pub mod Laws
use mistry.Base.{
  String, Bool, true, false, ◌&&◌, ◌||◌, not, Option, none, some, List, [], ◌∷◌, ◌++◌, ◌==◌, nat_eq,
  list_eq, if◌then◌else◌, is_some, map,
}
use mistry.Base.Text.{Str, codes, strip}
use mistry.Types.{not_exist, message, Result, ok, err, BuildInfo}
use mistry.Paths.{FilePath, drop_last, render}

-- A file holds bytes, or the JSON text of a `BuildInfo`, which is kept as that value.
pub data Content : Type 0 where
  text : Str → Content
  json_info : BuildInfo → Content

pub data Node : Type 0 where
  dir : Node
  file : Content → Node
  link : FilePath → Node

-- `known` lists the paths that were ever in use, so that a directory can be listed.
pub record Files : Type 0 where
  pub node : FilePath → Option Node
  pub known : List FilePath

-- What an operation on the files gives: a value or an error, and the files after it.
abbrev pub Op : Type 0 → Type 0
Op A = Files → Result A × Files

-- `x` is `p` or lies below it.
abbrev pub under : FilePath → FilePath → Bool
under p x = is_some (strip p x)

abbrev pub put_node : FilePath → Option Node → Files → Files
put_node p n fs = record { node = λ x. if x == p then n else fs.node x; known = p ∷ fs.known }

abbrev pub fail {ℓ} : {A : Type ℓ} → String → FilePath → Result A
fail what p = err (message (codes what ++ render p))

abbrev pub absent {ℓ} : {A : Type ℓ} → FilePath → Result A
absent p = err (not_exist (codes "no such file or directory: " ++ render p))

abbrev pub follow : Files → FilePath → Option Node
follow fs p = elim (fs.node p) [
  | none ↦ none
  | some n ↦ elim n [ dir ↦ some dir | file c ↦ some (file c) | link t ↦ fs.node t ]
]

abbrev pub is_dir : Option Node → Bool
is_dir none = false
is_dir (some dir) = true
is_dir (some (file _)) = false
is_dir (some (link _)) = false

-- The directory that holds `p` is there; the root always is.
abbrev pub has_parent : Files → FilePath → Bool
has_parent fs p = drop_last p == [] || is_dir (follow fs (drop_last p))

-- `os.Stat`
unfoldable pub stat : FilePath → Op Node
stat p fs = elim (follow fs p) [ none ↦ (absent p, fs) | some n ↦ (ok n, fs) ]

-- `os.Lstat`
unfoldable pub lstat : FilePath → Op Node
lstat p fs = elim (fs.node p) [ none ↦ (absent p, fs) | some n ↦ (ok n, fs) ]

-- `os.Mkdir`
unfoldable pub mkdir : FilePath → Op (Unit {0})
mkdir p fs =
    if is_some (fs.node p)
    then (fail "file exists: " p, fs)
    else if has_parent fs p
    then (ok tt, put_node p (some dir) fs)
    else (absent p, fs)

-- `ioutil.WriteFile`, and `os.Create` with no content.
unfoldable pub write_file : FilePath → Content → Op (Unit {0})
write_file p c fs =
    if is_dir (fs.node p)
    then (fail "is a directory: " p, fs)
    else if has_parent fs p
    then (ok tt, put_node p (some (file c)) fs)
    else (absent p, fs)

abbrev pub appended : Str → Option Node → Option Node
appended s none = none
appended s (some dir) = some dir
appended s (some (link t)) = some (link t)
appended s (some (file (text old))) = some (file (text (old ++ s)))
appended s (some (file (json_info i))) = some (file (json_info i))

-- A write through an open file that stands at `p`.
unfoldable pub append_file : FilePath → Str → Op (Unit {0})
append_file p s fs = (ok tt, put_node p (appended s (fs.node p)) fs)

-- `ioutil.ReadFile`
unfoldable pub read_file : FilePath → Op Content
read_file p fs = elim (follow fs p) [
  | none ↦ (absent p, fs)
  | some n ↦ elim n [
    | dir ↦ (fail "is a directory: " p, fs)
    | file c ↦ (ok c, fs)
    | link t ↦ (fail "too many links: " p, fs)
  ]
]

-- Some path strictly below `p` is in use.
abbrev pub has_children : Files → FilePath → List FilePath → Bool
has_children fs p [] = false
has_children fs p (x ∷ xs) =
    (under p x && (not (x == p) && is_some (fs.node x))) || has_children fs p xs

-- `os.Remove`
unfoldable pub remove : FilePath → Op (Unit {0})
remove p fs =
    if is_some (fs.node p)
    then (if is_dir (fs.node p) && has_children fs p fs.known
        then (fail "directory not empty: " p, fs)
        else (ok tt, put_node p none fs))
    else (absent p, fs)

-- `os.RemoveAll`
unfoldable pub remove_all : FilePath → Op (Unit {0})
remove_all p fs = (ok tt, record fs { node = λ x. if under p x then none else fs.node x })

-- The files below `p`, moved to `q`.
abbrev pub moved_node : FilePath → FilePath → Files → FilePath → Option Node
moved_node p q fs x = elim (strip q x) [
  | some r ↦ fs.node (p ++ r)
  | none ↦ if under p x then none else fs.node x
]

abbrev pub moved_path : FilePath → FilePath → FilePath → FilePath
moved_path p q x = elim (strip p x) [ some r ↦ q ++ r | none ↦ x ]

-- `os.Rename`: an existing directory is not replaced, and no directory moves into itself.
unfoldable pub rename : FilePath → FilePath → Op (Unit {0})
rename p q fs =
    if not (is_some (fs.node p))
    then (absent p, fs)
    else if is_dir (fs.node q)
    then (fail "file exists: " q, fs)
    else if is_some (fs.node q) && is_dir (fs.node p)
    then (fail "not a directory: " q, fs)
    else if under p q
    then (fail "invalid argument: " q, fs)
    else if has_parent fs q
    then (
      ok tt,
      record { node = moved_node p q fs; known = fs.known ++ map (moved_path p q) fs.known },
    )
    else (absent q, fs)

-- `os.Symlink(target, p)`
unfoldable pub symlink : FilePath → FilePath → Op (Unit {0})
symlink target p fs =
    if is_some (fs.node p)
    then (fail "file exists: " p, fs)
    else if has_parent fs p
    then (ok tt, put_node p (some (link target)) fs)
    else (absent p, fs)

abbrev resolved : Files → FilePath → Option Node → Result FilePath
resolved fs p none = absent p
resolved fs p (some dir) = ok p
resolved fs p (some (file _)) = ok p
resolved fs p (some (link t)) = if is_some (fs.node t) then ok t else absent t

-- `filepath.EvalSymlinks`
unfoldable pub eval_symlinks : FilePath → Op FilePath
eval_symlinks p fs = (resolved fs p (fs.node p), fs)

abbrev pub last_piece : FilePath → FilePath
last_piece [] = []
last_piece (x ∷ []) = x ∷ []
last_piece (x ∷ y ∷ xs) = last_piece (y ∷ xs)

-- Where `cp -r src dst` puts the copy: inside `dst` if that is a directory.
abbrev pub copy_target : Files → FilePath → FilePath → FilePath
copy_target fs src dst = if is_dir (follow fs dst) then dst ++ last_piece src else dst

abbrev pub copied_node : FilePath → FilePath → Files → FilePath → Option Node
copied_node src dst fs x = elim (strip dst x) [
  | none ↦ fs.node x
  | some r ↦ elim (fs.node (src ++ r)) [ none ↦ fs.node x | some n ↦ some n ]
]

-- `cp -r src dst`
unfoldable pub copy_tree : FilePath → FilePath → Op (Unit {0})
copy_tree src dst fs =
    let to = copy_target fs src dst in
    if not (is_some (fs.node src))
    then (absent src, fs)
    else if under src to
    then (fail "cannot copy a directory into itself: " to, fs)
    else if has_parent fs to
    then (
      ok tt,
      record { node = copied_node src to fs; known = fs.known ++ map (moved_path src to) fs.known },
    )
    else (absent to, fs)

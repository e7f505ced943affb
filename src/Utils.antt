-- ===== src/Utils.antt =====
-- pkg/utils: directories, and the members of the tar archive of a project.
use mistry.Base.{
  Bool, true, false, ◌&&◌, ◌||◌, none, some, List, [], ◌∷◌, ◌++◌, ◌==◌, nat_eq, list_eq,
  if◌then◌else◌, is_some,
}
use mistry.Base.Text.{codes, strip, less}
use mistry.Types.{message, is_not_exist, ok, err, Result}
use mistry.Paths.{FilePath, render}
use mistry.Files.{Files, Node, dir, file, link, Content, Op, stat, mkdir, absent}
use mistry.System.{Env, T, try, pure, throw, syscall, ◌>>=◌}

abbrev is_directory : Node → Bool
is_directory dir = true
is_directory (file _) = false
is_directory (link _) = false

module _ (env : Env) where
  -- `PathIsDir`
  unfoldable pub path_is_dir : FilePath → T (Unit {0})
  path_is_dir p = do
    fi ← syscall env (stat p)
    if is_directory fi
        then pure tt
        else throw (message (codes "Path " ++ (render p ++ codes " is not a directory")))

  unfoldable pub ensure_found : FilePath → Result Node → T (Unit {0})
  ensure_found p (ok fi) =
      if is_directory fi then pure tt else throw (message (render p ++ codes " is not a directory"))
  ensure_found p (err e) = if is_not_exist e then syscall env (mkdir p) else throw e

  -- `EnsureDirExists`
  unfoldable pub ensure_dir_exists : FilePath → T (Unit {0})
  ensure_dir_exists p = do found ← try (syscall env (stat p)); ensure_found p found

abbrev path_less : FilePath → FilePath → Bool
path_less [] [] = false
path_less [] (y ∷ ys) = true
path_less (x ∷ xs) [] = false
path_less (x ∷ xs) (y ∷ ys) = less x y || (x == y && path_less xs ys)

-- The paths in lexical order, each once.
insert_path : FilePath → List FilePath → List FilePath
insert_path p [] = p ∷ []
insert_path p (q ∷ qs) =
    if p == q then q ∷ qs else if path_less p q then p ∷ q ∷ qs else q ∷ insert_path p qs

-- The regular files at and below `root`, in the order of `filepath.Walk`, with names that are
-- relative to it. Links and directories are passed over.
members_of : FilePath → Files → List FilePath → List (FilePath × Content)
members_of root fs [] = []
members_of root fs (p ∷ ps) =
    let rest = members_of root fs ps in
    elim (strip root p) [
      | none ↦ rest
      | some name ↦ elim (fs.node p) [
        | none ↦ rest
        | some n ↦ elim n [ dir ↦ rest | link _ ↦ rest | file c ↦ (name, c) ∷ rest ]
      ]
    ]

sorted_paths : List FilePath → List FilePath
sorted_paths [] = []
sorted_paths (p ∷ ps) = insert_path p (sorted_paths ps)

-- The walk of `Tar`: the members of the archive, or the error of the first `os.Lstat`.
unfoldable pub walk : FilePath → Op (List (FilePath × Content))
unfolding insert_path members_of sorted_paths
walk root fs =
    if is_some (fs.node root)
    then (ok (members_of root fs (sorted_paths fs.known)), fs)
    else (absent root, fs)

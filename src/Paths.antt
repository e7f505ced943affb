-- ===== src/Paths.antt =====
-- Absolute paths as the list of their pieces, and `filepath.Join` on them.
pub mod Laws
use mistry.Base.{
  ℕ, Bool, ◌&&◌, not, List, [], ◌∷◌, ◌++◌, ◌==◌, nat_eq, list_eq, if◌then◌else◌, contains,
}
use mistry.Base.Text.{Str, codes, split}

abbrev pub FilePath : Type 0
FilePath = List Str

abbrev pub slash : ℕ
slash = b'/'

abbrev pub drop_last {ℓ} : {A : Type ℓ} → List A → List A
drop_last [] = []
drop_last (x ∷ []) = []
drop_last (x ∷ y ∷ xs) = x ∷ drop_last (y ∷ xs)

-- One piece of `filepath.Clean` on a rooted path.
push : FilePath → Str → FilePath
push p piece =
    if piece == []
    then p
    else if piece == codes "."
    then p
    else if piece == codes ".."
    then drop_last p
    else p ++ (piece ∷ [])

push_all : FilePath → List Str → FilePath
push_all p [] = p
push_all p (piece ∷ pieces) = push_all (push p piece) pieces

-- `filepath.Join(p, elem, ...)` at an absolute, clean `p`.
unfoldable pub join : FilePath → List Str → FilePath
unfolding push_all push split
join p [] = p
join p (elem ∷ elems) = join (push_all p (split elem slash)) elems

-- The text of a path.
abbrev pub render : FilePath → Str
render [] = []
render (piece ∷ p) = slash ∷ (piece ++ render p)

-- A name that is one piece of a path.
abbrev pub is_name : Str → Bool
is_name s =
    not (contains s slash) && (not (s == []) && (not (s == codes ".") && not (s == codes "..")))

-- `main.go`'s constants
abbrev pub data_dir : Str
data_dir = codes "/data"

abbrev pub cache_dir : Str
cache_dir = codes "/cache"

abbrev pub artifacts_dir : Str
artifacts_dir = codes "/artifacts"

abbrev pub params_dir : Str
params_dir = codes "/params"

abbrev pub build_log_fname : Str
build_log_fname = codes "out.log"

abbrev pub build_info_fname : Str
build_info_fname = codes "build_info.json"

abbrev pub img_cnt_prefix : Str
img_cnt_prefix = codes "mistry-"

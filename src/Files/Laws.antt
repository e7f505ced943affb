-- ===== src/Files/Laws.antt =====
-- Which paths each operation on the files leaves alone, whatever it returns.
use mistry.Base.{
  [], ◌∷◌, ◌≡◌, refl, false, arith, ◌==◌, ◌++◌, nat_eq, list_eq, Eq, eq_refl, list_beq,
  list_beq_iff, some, none, List,
}
use mistry.Base.Text.{Str, strip, strip_append}
use mistry.Files.{
  last_piece, Files, Content, Op, under, stat, lstat, mkdir, write_file, append_file, read_file,
  remove, remove_all, rename, symlink, eval_symlinks, ok, link, file, copy_tree,
}
use mistry.Paths.{FilePath}

module _ {ℓ} {A : Type ℓ} ⦃e : Eq A⦄ where
  strip_append_none : (p q x : List A) → strip p x ≡ none → strip (p ++ q) x ≡ none
  strip_append_none [] q x h = absurd (cc)
  strip_append_none (c ∷ p) q [] h = refl
  strip_append_none (c ∷ p) q (d ∷ x) h = ground (arith, strip_append_none p q x)

  -- A common beginning cancels.
  pub strip_cancel : (p q x : List A) → strip (p ++ q) (p ++ x) ≡ strip q x
  strip_cancel [] q x = refl
  strip_cancel (c ∷ p) q x = rw (eq_refl c) (strip_cancel p q x)

  pub beq_cancel : (p x y : List A) → list_beq (p ++ x) (p ++ y) ≡ list_beq x y
  beq_cancel [] x y = refl
  beq_cancel (c ∷ p) x y = rw (eq_refl c) (beq_cancel p x y)

-- What is not below `p` is not below what lies below `p`.
pub under-append : (p q x : FilePath) → under p x ≡ false → under (p ++ q) x ≡ false
under-append p q x h = ground (arith, strip_append_none p q x)

-- The node at `x` is the same after the operation.
abbrev pub OpKeeps : {A : Type 0} → FilePath → Op A → Type 0
OpKeeps x op = (fs : Files) → (op fs).1.node x ≡ fs.node x

module _ (x : FilePath) where
  pub OpKeeps-stat : (p : FilePath) → OpKeeps x (stat p)
  unfolding stat
  OpKeeps-stat p fs = ground arith

  pub OpKeeps-lstat : (p : FilePath) → OpKeeps x (lstat p)
  unfolding lstat
  OpKeeps-lstat p fs = ground arith

  pub OpKeeps-read_file : (p : FilePath) → OpKeeps x (read_file p)
  unfolding read_file
  OpKeeps-read_file p fs = ground arith

  pub OpKeeps-eval_symlinks : (p : FilePath) → OpKeeps x (eval_symlinks p)
  unfolding eval_symlinks
  OpKeeps-eval_symlinks p fs = refl

module _ (x p : FilePath) (apart : (x == p) ≡ false) where
  pub OpKeeps-mkdir : OpKeeps x (mkdir p)
  unfolding mkdir
  OpKeeps-mkdir fs = ground arith

  pub OpKeeps-write_file : (c : Content) → OpKeeps x (write_file p c)
  unfolding write_file
  OpKeeps-write_file c fs = ground arith

  pub OpKeeps-append_file : (s : Str) → OpKeeps x (append_file p s)
  unfolding append_file
  OpKeeps-append_file s fs = ground arith

  pub OpKeeps-remove : OpKeeps x (remove p)
  unfolding remove
  OpKeeps-remove fs = ground arith

  pub OpKeeps-symlink : (target : FilePath) → OpKeeps x (symlink target p)
  unfolding symlink
  OpKeeps-symlink target fs = ground arith

pub OpKeeps-remove_all : (x p : FilePath) → under p x ≡ false → OpKeeps x (remove_all p)
unfolding remove_all
OpKeeps-remove_all x p apart fs = ground arith

pub OpKeeps-rename :
    (x p q : FilePath) → under p x ≡ false → under q x ≡ false → OpKeeps x (rename p q)
unfolding rename
OpKeeps-rename x p q from to fs = ground arith

-- What an operation that succeeded has done.
pub symlink_ok :
    (target p : FilePath) (fs : Files)
    → (symlink target p fs).0 ≡ ok tt
    → (symlink target p fs).1.node p ≡ some (link target)
unfolding symlink
symlink_ok target p fs h = ground (arith, list_beq_iff p p)

pub write_file_ok :
    (p : FilePath) (c : Content) (fs : Files)
    → (write_file p c fs).0 ≡ ok tt
    → (write_file p c fs).1.node p ≡ some (file c)
unfolding write_file
write_file_ok p c fs h = ground (arith, list_beq_iff p p)

pub rename_ok :
    (p q r : FilePath) (fs : Files)
    → (rename p q fs).0 ≡ ok tt
    → (rename p q fs).1.node (q ++ r) ≡ fs.node (p ++ r)
unfolding rename
rename_ok p q r fs h = ground (arith, strip_append q r)

-- The old path is gone, unless the new one lies around it.
pub rename-gone :
    (p q r : FilePath) (fs : Files)
    → (rename p q fs).0 ≡ ok tt
    → under q (p ++ r) ≡ false
    → (rename p q fs).1.node (p ++ r) ≡ none
unfolding rename
rename-gone p q r fs h apart = ground (arith, strip_append p r)

-- A copy writes below its target alone.
pub OpKeeps-copy_tree : (x src dst : FilePath) → under dst x ≡ false → OpKeeps x (copy_tree src dst)
unfolding copy_tree
OpKeeps-copy_tree x src dst apart fs = ground (arith, under-append dst (last_piece src) x apart)

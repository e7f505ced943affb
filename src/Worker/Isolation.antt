-- ===== src/Worker/Isolation.antt =====
-- cmd/mistryd/worker.go: a build leaves alone what is not its own.
use mistry.Base.{◌≡◌, refl, ◌∙◌, true, false, ◌==◌, ◌++◌, ◌∷◌, [], List, nat_eq, list_eq, All, sym}
use mistry.Base.Text.{Str, codes}
use mistry.Paths.{FilePath, join, is_name, data_dir, params_dir}
use mathlib.Core.List.{append-nil}
use mistry.Paths.Laws.{
  join_one, join-data_dir, join-params_dir, join-cache_dir, join-artifacts_dir, join-param_file,
}
use mistry.Files.{under}
use mistry.Files.Laws.{
  under-append, strip_cancel, beq_cancel, OpKeeps-mkdir, OpKeeps-copy_tree, OpKeeps-remove_all,
}
use mistry.System.{Env, plainfs, run_cmd}
use mistry.System.Laws.{Keeps, Keeps-syscall}
use mistry.Job.{Job}
use mistry.Job.Placement.{IsPlaced}
use mistry.Worker.Frame.{Outside, AdapterKeeps, ne_below}
use mistry.Worker.Finish.{Apart}

-- `x` is not a path that lies below the pending path, as `join` builds it.
ne_joined :
    (x pending q r : FilePath) → under pending x ≡ false → q ≡ pending ++ r → (x == q) ≡ false
ne_joined x pending q r apart e = rw e (ne_below x pending r apart)

under_joined :
    (x pending q r : FilePath) → under pending x ≡ false → q ≡ pending ++ r → under q x ≡ false
under_joined x pending q r apart e = rw e (under-append pending r x apart)

All-param_file :
    (x pending : FilePath) (params : List (Str × Str))
    → under pending x ≡ false
    → All (λ kv. is_name kv.0 ≡ true) params
    → All (λ kv. (x == join pending (data_dir ∷ params_dir ∷ kv.0 ∷ [])) ≡ false) params
All-param_file x pending [] apart h = tt
All-param_file x pending ((k, v) ∷ params) apart (h, hs) = (
  ne_joined x pending _ _ apart (join-param_file pending k h),
  All-param_file x pending params apart hs,
)

-- A path `root ++ y` that is neither a directory of all builds nor below the two paths of `j`.
pub record IsElsewhere (j : Job) (y : FilePath) : Type 0 where
  pub not_root : (y == []) ≡ false
  pub not_pending : (y == codes "pending" ∷ []) ≡ false
  pub not_ready : (y == codes "ready" ∷ []) ≡ false
  pub not_groups : (y == codes "groups" ∷ []) ≡ false
  pub pending_tree : under (codes "pending" ∷ j.id ∷ []) y ≡ false
  pub ready_tree : under (codes "ready" ∷ j.id ∷ []) y ≡ false

module _ {root : FilePath} {j : Job} (p : IsPlaced root j) (y : FilePath)
    (el : IsElsewhere j y) where
  abbrev x : FilePath
  x = root ++ y

  x_pending : under j.pending_build_path x ≡ false
  x_pending = rw (p.pending, strip_cancel root (codes "pending" ∷ j.id ∷ []) y) el.pending_tree

  x_ready : under j.ready_build_path x ≡ false
  x_ready = rw (p.ready, strip_cancel root (codes "ready" ∷ j.id ∷ []) y) el.ready_tree

  ne_tail : (q z : FilePath) → q ≡ root ++ z → (y == z) ≡ false → (x == q) ≡ false
  ne_tail q z e h = rw (e, beq_cancel root y z) h

  root_join : (s : Str) → is_name s ≡ true → join j.root_build_path (s ∷ []) ≡ root ++ (s ∷ [])
  root_join s h = rw p.root_path (join_one root s h)

  Outside-elsewhere : Outside j x
  Outside-elsewhere = record {
    root = ne_tail _ [] (p.root_path ∙ sym (append-nil root)) el.not_root;
    pending_dir = ne_tail _ _ (root_join _ refl) el.not_pending;
    ready_dir = ne_tail _ _ (root_join _ refl) el.not_ready;
    groups_dir = ne_tail _ _ (root_join _ refl) el.not_groups;
    data_tree = under_joined x _ _ _ x_pending (join-data_dir _);
    params_tree = under_joined x _ _ _ x_pending (join-params_dir _);
    data_path = ne_joined x _ _ _ x_pending (join-data_dir _);
    cache = ne_joined x _ _ _ x_pending (join-cache_dir _);
    artifacts = ne_joined x _ _ _ x_pending (join-artifacts_dir _);
    params_path = ne_joined x _ _ _ x_pending (join-params_dir _);
    param_files = All-param_file x _ j.params x_pending p.named;
    log = ne_joined x _ _ _ x_pending p.log;
    info = ne_joined x _ _ _ x_pending p.info;
  }

  pub Apart-elsewhere : Apart j x
  Apart-elsewhere = record {
    outside = Outside-elsewhere;
    pending_tree = x_pending;
    ready_tree = x_ready;
  }

module _ (env : Env) (j : Job) (x : FilePath) (pending : under j.pending_build_path x ≡ false)
    (ready : under j.ready_build_path x ≡ false) where
  ne_pending : (x == j.pending_build_path) ≡ false
  ne_pending = ne_joined x j.pending_build_path _ [] pending (sym (append-nil _))

  Keeps-clone : (src : FilePath) → Keeps x ((plainfs env).clone src j.pending_build_path)
  unfolding run_cmd
  Keeps-clone src = record {
    at = λ s. (Keeps-syscall x env _ (OpKeeps-copy_tree x src _ pending)).at _;
  }

  pub plainfs-AdapterKeeps : AdapterKeeps (plainfs env) j x
  plainfs-AdapterKeeps = record {
    create = Keeps-syscall x env _ (OpKeeps-mkdir x _ ne_pending);
    clone = Keeps-clone;
    remove = Keeps-syscall x env _ (OpKeeps-remove_all x _ ready);
  }

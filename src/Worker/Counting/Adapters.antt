-- ===== src/Worker/Counting/Adapters.antt =====
-- pkg/filesystem: the adapters make no call that is counted.
use mistry.Base.{◌≡◌, refl, ◌⊎◌, inl, inr, Bool, false, List, [], ◌∷◌, arith, nat_eq, list_eq}
use mistry.Base.Text.{Str, codes}
use mistry.Types.{Result, ok, err}
use mathlib.Core.Path.{subst, sym}
use mistry.System.{
  Env, Call, FileSystem, plainfs, btrfs, run_cmd, syscall, record_call, try, pure, ◌>>◌, subvolume,
}
use mistry.System.Counting.{
  Adds, adds_rules, Adds-syscall, Adds-bind, Adds-seq, Adds-pure, Adds-record_call,
}
use mistry.Worker.Counting.{is_metric, AdapterAdds}
use mistry.Files.{Op, Node, stat, remove_all}
use mistry.Paths.{FilePath, render}

-- The adapter is one of the two of the repository.
abbrev pub IsAdapter : Env → FileSystem → Type 0
IsAdapter env fs = (fs ≡ plainfs env) ⊎ (fs ≡ btrfs env)

module _ (env : Env) (f : Call → Bool)
    (silent : (c : Call) → is_metric c ≡ false → f c ≡ false) where
  Adds-run_cmd : (args : List Str) (op : Op (Unit {0})) → Adds f 0 (run_cmd env args op)
  unfolding run_cmd
  Adds-run_cmd args op =
      let called : Adds f 0 (record_call (Call.command args) >> syscall env op) =
        Adds-seq f 0 (record_call (Call.command args)) (syscall env op)
          (Adds-record_call f 0 (Call.command args)
            (ground (arith, silent (Call.command args) refl)))
          (Adds-syscall f 0 env op) in
      record { least = called.least; most = called.most }

  plainfs-AdapterAdds : AdapterAdds f (plainfs env)
  plainfs-AdapterAdds = record {
    create = λ p. search adds_rules;
    clone = λ p q. search (adds_rules, Adds-run_cmd);
    remove = λ p. search adds_rules;
  }

  Adds-removed :
      (p : FilePath) (r : Result Node)
      → Adds f 0 (elim r [
        | ok _ ↦ run_cmd env (subvolume env (codes "delete") (render p ∷ [])) (remove_all p)
        | err _ ↦ pure tt
      ])
  Adds-removed p (ok m) = Adds-run_cmd _ _
  Adds-removed p (err e) = Adds-pure f 0 tt

  btrfs-AdapterAdds : AdapterAdds f (btrfs env)
  btrfs-AdapterAdds = record {
    create = λ p. search (adds_rules, Adds-run_cmd);
    clone = λ p q. search (adds_rules, Adds-run_cmd);
    remove = λ p. Adds-bind f 0 (try (syscall env (stat p))) _ (search adds_rules) (Adds-removed p);
  }

  pub adapter-AdapterAdds : (fs : FileSystem) → IsAdapter env fs → AdapterAdds f fs
  adapter-AdapterAdds fs (inl e) = subst (AdapterAdds f) (sym e) plainfs-AdapterAdds
  adapter-AdapterAdds fs (inr e) = subst (AdapterAdds f) (sym e) btrfs-AdapterAdds

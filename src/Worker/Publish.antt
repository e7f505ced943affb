-- ===== src/Worker/Publish.antt =====
-- cmd/mistryd/worker.go: the deferred functions of `Work`, which publish a build.
use mistry.Docker.{combine}
use mistry.Base.{◌≡◌, refl, ◌∙◌, some, arith, ◌==◌, nat_eq, list_eq, list_beq_iff, true, false}
use mistry.Base.Int.{pos, int_eq}
use mistry.Types.{GoError, Result, ok, err}
use mistry.Paths.{FilePath}
use mistry.Files.{rename, link, symlink, lstat, remove}
use mistry.System.{Env, State, syscall}
use mistry.Job.{Job}
use mistry.Worker.{link_latest, latest_found, publish, after_move}

module _ (env : Env) (j : Job) (s : State) where
  link_latest_ok :
      (link_latest env j s).0 ≡ ok tt
      → (link_latest env j s).1.files.node j.latest_build_path ≡ some (link j.ready_build_path)
  unfolding link_latest latest_found syscall lstat remove symlink
  link_latest_ok h = ground (arith, list_beq_iff j.latest_build_path j.latest_build_path)

  link_latest-info : (link_latest env j s).1.info ≡ s.info
  unfolding link_latest latest_found syscall lstat remove symlink
  link_latest-info = ground arith

  link_latest-node :
      (x : FilePath)
      → (x == j.latest_build_path) ≡ false
      → (link_latest env j s).1.files.node x ≡ s.files.node x
  unfolding link_latest latest_found syscall lstat remove symlink
  link_latest-node x h = ground arith

  after_move-info : (r : Result (Unit {0})) → (after_move env j r s).1.info ≡ s.info
  unfolding after_move
  after_move-info (err e) = refl
  after_move-info (ok tt) = ground (arith, link_latest-info)

  after_move-node :
      (r : Result (Unit {0})) (x : FilePath)
      → (x == j.latest_build_path) ≡ false
      → (after_move env j r s).1.files.node x ≡ s.files.node x
  unfolding after_move
  after_move-node (err e) x h = refl
  after_move-node (ok tt) x h = ground (arith, link_latest-node x h)

  after_move_ok :
      (r : Result (Unit {0}))
      → (after_move env j r s).0 ≡ ok tt
      → (s.info.exit_code == pos 0) ≡ true
      → (after_move env j r s).1.files.node j.latest_build_path ≡ some (link j.ready_build_path)
  unfolding after_move
  after_move_ok (err e) h z = cc
  after_move_ok (ok tt) h z = ground (arith, link_latest_ok)

module _ (env : Env) (j : Job) (s : State) where
  -- The state after the move.
  abbrev pub moved : Result (Unit {0}) × State
  moved = syscall env (rename j.pending_build_path j.ready_build_path) s

  moved-info : moved.1.info ≡ s.info
  unfolding syscall
  moved-info = ground arith

  pub publish-info : (outcome : Result (Unit {0})) → (publish env j outcome s).1.info ≡ s.info
  unfolding publish
  publish-info outcome = after_move-info env j moved.1 _ ∙ moved-info

  pub publish-node :
      (outcome : Result (Unit {0})) (x : FilePath)
      → (x == j.latest_build_path) ≡ false
      → (publish env j outcome s).1.files.node x ≡ moved.1.files.node x
  unfolding publish
  publish-node outcome x h = after_move-node env j moved.1 _ x h

  -- A build that failed is moved, and no link is made.
  pub publish_err-node :
      (e : GoError) (x : FilePath) → (publish env j (err e) s).1.files.node x ≡ moved.1.files.node x
  unfolding publish after_move syscall
  publish_err-node e x = ground arith

  pub publish_exit-node :
      (outcome : Result (Unit {0})) (x : FilePath)
      → (s.info.exit_code == pos 0) ≡ false
      → (publish env j outcome s).1.files.node x ≡ moved.1.files.node x
  unfolding publish after_move syscall
  publish_exit-node outcome x h = ground arith

  after_move_inv :
      (outcome : Result (Unit {0})) (m : Result (Unit {0})) (t : State)
      → (after_move env j (combine "could not move pending path" outcome m) t).0 ≡ ok tt
      → (outcome ≡ ok tt) × (m ≡ ok tt)
  unfolding after_move
  after_move_inv (ok a) (ok b) t h = (refl, refl)
  after_move_inv (ok a) (err e) t h = absurd (cc)
  after_move_inv (err e) (ok a) t h = absurd (cc)
  after_move_inv (err e) (err d) t h = absurd (cc)

  -- Without an error the build was moved.
  pub publish_ok :
      (outcome : Result (Unit {0}))
      → (publish env j outcome s).0 ≡ ok tt
      → (outcome ≡ ok tt) × (moved.0 ≡ ok tt)
  unfolding publish
  publish_ok outcome h = after_move_inv outcome moved.0 moved.1 h

  -- Without an error, and with exit code 0, `latest` points at the ready path.
  pub publish_ok-latest :
      (outcome : Result (Unit {0}))
      → (publish env j outcome s).0 ≡ ok tt
      → (s.info.exit_code == pos 0) ≡ true
      → (publish env j outcome s).1.files.node j.latest_build_path ≡ some (link j.ready_build_path)
  unfolding publish
  publish_ok-latest outcome h z = after_move_ok env j moved.1 _ h (rw moved-info z)

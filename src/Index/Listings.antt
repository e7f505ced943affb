-- ===== src/Index/Listings.antt =====
-- When the index of the jobs (getJobs of cmd/mistryd/server.go) depends on the order of the projects.
use mistry.Base.{suc, ◌≡◌, refl, true, false, none, some, List, [], ◌∷◌, arith, nat_eq, list_eq}
use mistry.Base.Text.{Str, codes}
use mistry.Types.{Result, ok, err, is_ok}
use mistry.Paths.{FilePath, join, build_info_fname}
use mistry.Files.{Node, stat, follow, read_file}
use mistry.System.{Env, State, T, syscall, bind_result}
use mistry.Job.{Config, read_job_build_info}
use mistry.Worker.Cache.{Quiet}
use mistry.Index.{Entry, path_exists, existence, list_jobs, index_jobs, jobs_of}

abbrev pub pending_of : Config → Str → FilePath
pending_of cfg p = join cfg.build_path (p ∷ codes "pending" ∷ [])

abbrev pub ready_of : Config → Str → FilePath
ready_of cfg p = join cfg.build_path (p ∷ codes "ready" ∷ [])

bind_result-fails :
    {A B : Type 0} (f : A → T B) (r : Result A × State)
    → is_ok r.0 ≡ false
    → is_ok (bind_result f r).0 ≡ false
bind_result-fails f (ok a, s) h = cc
bind_result-fails f (err e, s) h = refl

module _ (env : Env) (quiet : Quiet env) where
  path_exists-present :
      (what : Str) (p : FilePath) (n : Node) (s : State)
      → follow s.files p ≡ some n
      → path_exists env what p s ≡ (ok true, record s { tick = suc s.tick })
  unfolding path_exists existence syscall stat
  path_exists-present what p n s h = ground (arith, quiet s.tick)

  path_exists-absent :
      (what : Str) (p : FilePath) (s : State)
      → follow s.files p ≡ none
      → path_exists env what p s ≡ (ok false, record s { tick = suc s.tick })
  unfolding path_exists existence syscall stat
  path_exists-absent what p s h = ground (arith, quiet s.tick)

  index_jobs-missing :
      (path : FilePath) (project state : Str) (e : Entry) (es : List Entry) (s : State)
      → follow s.files (join (join path (e.name ∷ [])) (build_info_fname ∷ [])) ≡ none
      → is_ok (index_jobs env path project state (e ∷ es) s).0 ≡ false
  unfolding index_jobs read_job_build_info syscall read_file
  index_jobs-missing path project state e es s h = ground (arith, quiet s.tick)

  -- Where no call fails, for a project with a pending and a ready directory the index does not
  -- depend on the listings of the project before.
  pub jobs_of-present :
      (cfg : Config) (pending_jobs ready_jobs : List Entry) (p : Str) (ps : List Str) (m n : Node)
      (s : State)
      → follow s.files (pending_of cfg p) ≡ some m
      → follow s.files (ready_of cfg p) ≡ some n
      → jobs_of env cfg pending_jobs ready_jobs (p ∷ ps) s ≡ jobs_of env cfg [] [] (p ∷ ps) s
  unfolding jobs_of list_jobs
  jobs_of-present cfg pending_jobs ready_jobs p ps m n s hm hn = ground (
    arith,
    path_exists-present (codes "cannot check if pending path exists") (pending_of cfg p) m s hm,
    path_exists-present (codes "cannot check if ready path exists") (ready_of cfg p) n
        (record s { tick = suc s.tick }) hn,
  )

  -- Where no call fails, the index of a project that has neither a pending nor a ready directory
  -- fails if the project before it had a pending job and no build of its name is found below the
  -- pending path of this one.
  pub jobs_of-stale :
      (cfg : Config) (e : Entry) (es ready_jobs : List Entry) (p : Str) (ps : List Str) (s : State)
      → follow s.files (pending_of cfg p) ≡ none
      → follow s.files (ready_of cfg p) ≡ none
      → follow s.files (join (join (pending_of cfg p) (e.name ∷ [])) (build_info_fname ∷ [])) ≡ none
      → is_ok (jobs_of env cfg (e ∷ es) ready_jobs (p ∷ ps) s).0 ≡ false
  unfolding jobs_of list_jobs
  jobs_of-stale cfg e es ready_jobs p ps s hp hr hi =
      let now : State = record s { tick = suc (suc s.tick) } in
      rw
        (
          path_exists-absent (codes "cannot check if pending path exists") (pending_of cfg p) s hp,
          path_exists-absent (codes "cannot check if ready path exists") (ready_of cfg p)
              (record s { tick = suc s.tick }) hr,
        )
        (bind_result-fails _ (index_jobs env (pending_of cfg p) p (codes "pending") (e ∷ es) now)
          (index_jobs-missing (pending_of cfg p) p (codes "pending") e es now hi))

-- ===== src/Index/Shown.antt =====
-- What the index of the jobs (getJobs of cmd/mistryd/server.go) shows of the build directory.
use mistry.Base.{
  ◌≡◌, refl, Bool, true, false, some, List, [], ◌∷◌, ◌++◌, arith, nat_eq, list_eq, All, All-append,
  is_some,
}
use mathlib.Core.List.{map}
use mistry.Base.Text.{Str, codes}
use mistry.Types.{ok, value_or}
use mathlib.Core.Path.{sym, ap, subst, ◌∙◌}
use mistry.Paths.{FilePath, join, build_info_fname}
use mistry.Files.{Files, file, json_info, text, Content, follow, read_file, stat}
use mistry.System.{Env, State, syscall, map_error}
use mistry.System.Steps.{bind_ok, syscall_ok, map_error_ok}
use mistry.Job.{Config, read_job_build_info, decode_info}
use mistry.Index.{
  Entry, IndexJob, read_dir, directories, path_exists, list_jobs, index_jobs, jobs_of,
}
use mistry.Index.{BuildInfo}
use mistry.Index.{existence}
use mistry.Index.{wrap}
use mistry.Types.{BuildInfo}
use mathlib.Core.List.{map-append}
use mistry.Index.{get_jobs}
use mistry.Index.Entries.{entries_at, directories-folders, read_dir-files}
use mistry.Index.Described.{
  Key, key_of, state_path, keys_in, keys_of, projects_in, IsShown, HasBoth,
}

read_file-ok :
    (p : FilePath) (fs : Files) (c : Content)
    → (read_file p fs).0 ≡ ok c
    → (follow fs p ≡ some (file c)) × ((read_file p fs).1 ≡ fs)
unfolding read_file
read_file-ok p fs c h = ground arith

module _ (env : Env) (cfg : Config) where
  list-ok :
      (what : Str) (p : FilePath) (old es : List Entry) (s : State)
      → (list_jobs env what true p old s).0 ≡ ok es
      → (es ≡ entries_at s.files p) × ((list_jobs env what true p old s).1.files ≡ s.files)
  unfolding list_jobs
  list-ok what p old es s h =
      let read =
        syscall_ok env (read_dir p) s es
          (map_error_ok (wrap what) (syscall env (read_dir p)) s es h).0 in
      (sym (ap (value_or []) read.0), ap (λ r. r.1.files) read.1 ∙ read_dir-files p s.files)

  decode-ok :
      (c : Content) (s : State) (i : BuildInfo)
      → (decode_info c s).0 ≡ ok i
      → (c ≡ json_info i) × ((decode_info c s).1 ≡ s)
  unfolding decode_info
  decode-ok (text t) s i h = absurd cc
  decode-ok (json_info k) s i h = (ap json_info (ap (value_or k) h), refl)

  info-ok :
      (p : FilePath) (s : State) (i : BuildInfo)
      → (read_job_build_info env p false s).0 ≡ ok i
      → (follow s.files (join p (build_info_fname ∷ [])) ≡ some (file (json_info i)))
        × ((read_job_build_info env p false s).1.files ≡ s.files)
  unfolding read_job_build_info
  info-ok p s i h =
      let path = join p (build_info_fname ∷ []) in
      let (c, got, same, rest) = bind_ok (syscall env (read_file path)) _ s i h in
      let read = syscall_ok env (read_file path) s c got in
      let found = read_file-ok path s.files c read.0 in
      let (k, decoded, next, last) = bind_ok (decode_info c) _ _ i rest in
      let info = decode-ok c _ k decoded in
      (
        found.0 ∙ ap (λ x. some (file x)) (info.0 ∙ ap json_info (ap (value_or k) last)),
        ap (λ r. r.1.files) (same ∙ next)
            ∙ ap (λ (t : State). t.files) info.1
            ∙ ap (λ r. r.1.files) read.1
            ∙ found.1,
      )

  exists-ok :
      (what : Str) (p : FilePath) (b : Bool) (s : State)
      → is_some (follow s.files p) ≡ true
      → (path_exists env what p s).0 ≡ ok b
      → (b ≡ true) × ((path_exists env what p s).1.files ≡ s.files)
  unfolding path_exists existence syscall stat
  exists-ok what p b s k h = ground (arith, k, h)

  -- The jobs have these keys, and the files are as they were.
  abbrev Lists : Files → List Key → List IndexJob → Files → Type 0
  Lists fs keys jobs now = (map key_of jobs ≡ keys) × (All (IsShown cfg fs) jobs × (now ≡ fs))

  index_jobs-ok :
      (project state : Str) (es : List Entry) (jobs : List IndexJob) (s : State)
      → (index_jobs env (state_path cfg project state) project state es s).0 ≡ ok jobs
      → Lists s.files
          (map (λ (e : Entry). (project, (state, e.name))) es)
          jobs
          (index_jobs env (state_path cfg project state) project state es s).1.files
  unfolding index_jobs
  index_jobs-ok project state [] jobs s h =
      subst (λ js. Lists s.files [] js s.files) (ap (value_or jobs) h) (refl, (tt, refl))
  index_jobs-ok project state (e ∷ es) jobs s h =
      let path = state_path cfg project state in
      let read = read_job_build_info env (join path (e.name ∷ [])) false in
      let named = wrap (codes "cannot find job " ++ e.name) in
      let (i, got, same, rest) = bind_ok (map_error named read) _ s jobs h in
      let ran = map_error_ok named read s i got in
      let info = info-ok (join path (e.name ∷ [])) s i ran.0 in
      let t : State = (map_error named read s).1 in
      let kept : t.files ≡ s.files = ap (λ r. r.1.files) ran.1 ∙ info.1 in
      let (others, made, next, last) =
        bind_ok (index_jobs env path project state es) _ t jobs rest in
      let (keys, (shown, files)) = index_jobs-ok project state es others t made in
      subst
        (λ js.
          Lists s.files (map (λ (x : Entry). (project, (state, x.name))) (e ∷ es)) js
            (index_jobs env path project state (e ∷ es) s).1.files)
        (ap (value_or jobs) last)
        (
          ap (λ ks. (project, (state, e.name)) ∷ ks) keys,
          (
            (
              record { info = info.0; time = refl },
              subst (λ fs. All (IsShown cfg fs) others) kept shown,
            ),
            ap (λ r. r.1.files) (same ∙ next) ∙ files ∙ kept,
          ),
        )

  exists-at :
      (what : Str) (p : FilePath) (b : Bool) (fs : Files) (s : State)
      → s.files ≡ fs
      → is_some (follow fs p) ≡ true
      → (path_exists env what p s).0 ≡ ok b
      → (b ≡ true) × ((path_exists env what p s).1.files ≡ fs)
  exists-at what p b fs s k there h =
      let got = exists-ok what p b s (ap (λ x. is_some (follow x p)) k ∙ there) h in
      (got.0, got.1 ∙ k)

  list-at :
      (what : Str) (b : Bool) (p : FilePath) (old es : List Entry) (fs : Files) (s : State)
      → s.files ≡ fs
      → b ≡ true
      → (list_jobs env what b p old s).0 ≡ ok es
      → (es ≡ entries_at fs p) × ((list_jobs env what b p old s).1.files ≡ fs)
  list-at what true p old es fs s k e h =
      let got = list-ok what p old es s h in (got.0 ∙ ap (λ x. entries_at x p) k, got.1 ∙ k)
  list-at what false p old es fs s k e h = absurd cc

  index-at :
      (project state : Str) (es : List Entry) (jobs : List IndexJob) (fs : Files) (s : State)
      → s.files ≡ fs
      → es ≡ entries_at fs (state_path cfg project state)
      → (index_jobs env (state_path cfg project state) project state es s).0 ≡ ok jobs
      → Lists fs
          (keys_in cfg fs project state)
          jobs
          (index_jobs env (state_path cfg project state) project state es s).1.files
  index-at project state es jobs fs s k e h =
      subst
        (λ xs.
          Lists fs (map (λ (x : Entry). (project, (state, x.name))) xs) jobs
            (index_jobs env (state_path cfg project state) project state es s).1.files)
        e
        (subst
          (λ x.
            Lists x (map (λ (y : Entry). (project, (state, y.name))) es) jobs
              (index_jobs env (state_path cfg project state) project state es s).1.files)
          k (index_jobs-ok project state es jobs s h))

  Lists-append :
      (fs : Files) (ks ls : List Key) (xs ys : List IndexJob) (t u : Files)
      → Lists fs ks xs t
      → Lists fs ls ys u
      → Lists fs (ks ++ ls) (xs ++ ys) u
  Lists-append fs ks ls xs ys t u a b = (
    map-append key_of xs ys ∙ ap (λ r. r ++ map key_of ys) a.0 ∙ ap (λ r. ks ++ r) b.0,
    (All-append (IsShown cfg fs) xs ys a.1.0 b.1.0, b.1.1),
  )

  jobs_of-ok :
      (pending_jobs ready_jobs : List Entry) (projects : List Str) (jobs : List IndexJob)
      (fs : Files) (s : State)
      → s.files ≡ fs
      → All (HasBoth cfg fs) projects
      → (jobs_of env cfg pending_jobs ready_jobs projects s).0 ≡ ok jobs
      → Lists fs
          (keys_of cfg fs projects)
          jobs
          (jobs_of env cfg pending_jobs ready_jobs projects s).1.files
  unfolding jobs_of
  jobs_of-ok pending_jobs ready_jobs [] jobs fs s k both h =
      subst (λ js. Lists fs [] js s.files) (ap (value_or jobs) h) (refl, (tt, k))
  jobs_of-ok pending_jobs ready_jobs (p ∷ ps) jobs fs s k (both, rest) h =
      let pending = state_path cfg p (codes "pending") in
      let ready = state_path cfg p (codes "ready") in
      let w1 = codes "cannot check if pending path exists" in
      let w2 = codes "cannot check if ready path exists" in
      let w3 = codes "cannot scan pending jobs of project " ++ p in
      let w4 = codes "cannot scan ready jobs of project " ++ p in
      let (pe, h1, s1, r1) = bind_ok (path_exists env w1 pending) _ s jobs h in
      let e1 = exists-at w1 pending pe fs s k both.0 h1 in
      let (re, h2, s2, r2) = bind_ok (path_exists env w2 ready) _ _ jobs r1 in
      let e2 = exists-at w2 ready re fs _ e1.1 both.1 h2 in
      let (pn, h3, s3, r3) = bind_ok (list_jobs env w3 pe pending pending_jobs) _ _ jobs r2 in
      let e3 = list-at w3 pe pending pending_jobs pn fs _ e2.1 e1.0 h3 in
      let (rn, h4, s4, r4) = bind_ok (list_jobs env w4 re ready ready_jobs) _ _ jobs r3 in
      let e4 = list-at w4 re ready ready_jobs rn fs _ e3.1 e2.0 h4 in
      let (pi, h5, s5, r5) = bind_ok (index_jobs env pending p (codes "pending") pn) _ _ jobs r4 in
      let e5 = index-at p (codes "pending") pn pi fs _ e4.1 e3.0 h5 in
      let (ri, h6, s6, r6) = bind_ok (index_jobs env ready p (codes "ready") rn) _ _ jobs r5 in
      let e6 = index-at p (codes "ready") rn ri fs _ e5.1.1 e4.0 h6 in
      let (others, h7, s7, r7) = bind_ok (jobs_of env cfg pn rn ps) _ _ jobs r6 in
      let e7 = jobs_of-ok pn rn ps others fs _ e6.1.1 rest h7 in
      subst
        (λ js.
          Lists fs (keys_of cfg fs (p ∷ ps)) js
            (jobs_of env cfg pending_jobs ready_jobs (p ∷ ps) s).1.files)
        (ap (value_or jobs) r7)
        (subst (Lists fs (keys_of cfg fs (p ∷ ps)) (pi ++ (ri ++ others)))
          (sym (ap (λ r. r.1.files) (s1 ∙ s2 ∙ s3 ∙ s4 ∙ s5 ∙ s6 ∙ s7)))
          (Lists-append fs _ _ pi (ri ++ others) _ _ e5 (Lists-append fs _ _ ri others _ _ e6 e7)))

  -- What `getJobs` returns are the jobs of the build directory, where each directory in it has the
  -- two directories of a project.
  pub get_jobs-IsShown :
      (jobs : List IndexJob) (s : State)
      → All (HasBoth cfg s.files) (projects_in cfg s.files)
      → (get_jobs env cfg s).0 ≡ ok jobs
      → (map key_of jobs ≡ keys_of cfg s.files (projects_in cfg s.files))
        × All (IsShown cfg s.files) jobs
  unfolding get_jobs
  get_jobs-IsShown jobs s both h =
      let named = wrap (codes "cannot scan projects") in
      let read = syscall env (read_dir cfg.build_path) in
      let (folders, got, _, rest) = bind_ok (map_error named read) _ s jobs h in
      let ran = map_error_ok named read s folders got in
      let seen = syscall_ok env (read_dir cfg.build_path) s folders ran.0 in
      let kept : (map_error named read s).1.files ≡ s.files =
        ap (λ r. r.1.files) (ran.1 ∙ seen.1) ∙ read_dir-files cfg.build_path s.files in
      let same : directories folders ≡ projects_in cfg s.files =
        ap directories (sym (ap (value_or []) seen.0))
        ∙ directories-folders (entries_at s.files cfg.build_path) in
      let (keys, (shown, _)) =
        jobs_of-ok [] [] (directories folders) jobs s.files _ kept
          (subst (All (HasBoth cfg s.files)) (sym same) both) rest in
      (keys ∙ ap (keys_of cfg s.files) same, shown)

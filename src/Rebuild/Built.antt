-- ===== src/Rebuild/Built.antt =====
-- The images that a rebuild (cmd/mistryd/server.go) without a failed project has built.
use mistry.Base.{
  ◌≡◌, refl, Bool, true, false, Option, none, some, List, [], ◌∷◌, ◌++◌, arith, nat_eq, list_eq,
}
use mistry.Base.Text.{Str}
use mistry.Types.{value_or, GoError, Result, ok, err}
use mathlib.Core.Path.{subst, ap, ◌∙◌}
use mistry.System.{Env, State}
use mistry.System.Steps.{bind_ok}
use mistry.Job.{Config, Job, new_job}
use mistry.Docker.{build_image}
use mistry.Rebuild.{RebuildResult, rebuild_project, rebuild_all, rebuilt, discard}
use mistry.Base.{◌≢◌}
use mistry.Rebuild.{external}
use mistry.Rebuild.{client_ready}
use mistry.Rebuild.{names_ready}
use mistry.Rebuild.{rebuild_images}
use mistry.System.{external}
use mistry.System.{Call}
use mistry.Rebuild.{try}
use mistry.Rebuild.{Call}
use mistry.System.{try}
use mistry.Rebuild.{chosen}
use mistry.Rebuild.{no_rebuild}
use mistry.Rebuild.{after_rebuild}
use mistry.Rebuild.Counts.{after-ended}

nonempty : (xs : List Str) (p : Str) → xs ++ (p ∷ []) ≢ []
nonempty [] p h = cc
nonempty (x ∷ xs) p h = cc

module _ (env : Env) (cfg : Config) where
  -- One after the other from the state `s`, for each project a job is made and its image is built,
  -- both without an error.
  pub IsBuilt : List Str → State → Type 0
  IsBuilt [] s = Unit
  IsBuilt (p ∷ ps) s =
      (j : Job) × (((new_job env p [] [] (some cfg) s).0 ≡ ok j)
        × (((build_image env j cfg.uid discard true true (new_job env p [] [] (some cfg) s).1).0
              ≡ ok tt)
            × IsBuilt ps
                (build_image env j cfg.uid discard true true
                  (new_job env p [] [] (some cfg) s).1).1))

  rebuild_project-IsBuilt :
      (p : Str) (ps : List Str) (s : State)
      → (rebuild_project env cfg p s).0 ≡ ok tt
      → IsBuilt ps (rebuild_project env cfg p s).1
      → IsBuilt (p ∷ ps) s
  unfolding rebuild_project IsBuilt
  rebuild_project-IsBuilt p ps s h rest =
      let (j, made, same, built) =
        bind_ok (new_job env p [] [] (some cfg)) (λ j. build_image env j cfg.uid discard true true)
          s tt h in
      (j, (made, (built, subst (IsBuilt ps) (ap (λ r. r.1) same) rest)))

  rebuilt-IsBuilt :
      (stop_err : Bool) (p : Str) (ps : List Str) (r : RebuildResult) (turn : Result (Unit {0}))
      (s : State) (end : RebuildResult × Option GoError)
      → ((q : RebuildResult)
          → (rebuild_all env cfg stop_err ps q s).0 ≡ ok end
          → IsBuilt ps s × (q.failed ≡ []))
      → end.1 ≡ none
      → (rebuilt env cfg stop_err p r (rebuild_all env cfg stop_err ps) turn s).0 ≡ ok end
      → (turn ≡ ok tt) × (IsBuilt ps s × (r.failed ≡ []))
  unfolding rebuilt
  rebuilt-IsBuilt stop_err p ps r (ok tt) s end ih e h = (refl, ih _ h)
  rebuilt-IsBuilt false p ps r (err d) s end ih e h =
      absurd (nonempty r.failed p (ih (record r { failed = r.failed ++ (p ∷ []) }) h).1)
  rebuilt-IsBuilt true p ps r (err d) s end ih e h =
      absurd (ground (arith, e, ap (λ x. (value_or end x).1) h))

  -- A loop that ends without an error and with no failed project has built every image.
  pub rebuild_all-IsBuilt :
      (stop_err : Bool) (names : List Str) (r : RebuildResult) (s : State)
      (end : RebuildResult × Option GoError)
      → end.1 ≡ none
      → end.0.failed ≡ []
      → (rebuild_all env cfg stop_err names r s).0 ≡ ok end
      → IsBuilt names s × (r.failed ≡ [])
  unfolding rebuild_all IsBuilt
  rebuild_all-IsBuilt stop_err [] r s end e f h = (tt, ap (λ x. (value_or end x).0.failed) h ∙ f)
  rebuild_all-IsBuilt stop_err (p ∷ ps) r s end e f h =
      let (done, (rest, none_failed)) =
        rebuilt-IsBuilt stop_err p ps r (rebuild_project env cfg p s).0
          (rebuild_project env cfg p s).1 end
          (λ q k. rebuild_all-IsBuilt stop_err ps q (rebuild_project env cfg p s).1 end e f k) e
          h in
      (rebuild_project-IsBuilt p ps s done rest, none_failed)

-- The state in which the client of docker was made, after the names were there.
abbrev pub opened : Env → State → State
opened env s = (external env Call.docker_open (λ _. tt) s).1

module _ (env : Env) (cfg : Config) (stop_err : Bool) (r : RebuildResult) (f : r.failed ≡ []) where
  client_ready-IsBuilt :
      (names : List Str) (client : Result (Unit {0})) (s : State)
      → (client_ready env cfg stop_err names client s).0 ≡ ok (r, none)
      → IsBuilt env cfg names s
  unfolding client_ready
  client_ready-IsBuilt names (err e) s h = absurd cc
  client_ready-IsBuilt names (ok _) s h =
      let (end, loop, _, after) =
        bind_ok (rebuild_all env cfg stop_err names no_rebuild) (after_rebuild env) s (r, none) h in
      let (ended, counted) = after-ended env end r _ after in
      (rebuild_all-IsBuilt env cfg stop_err names no_rebuild s end ended (counted.1 ∙ f) loop).0

  names_ready-IsBuilt :
      (given : Result (List Str)) (names : List Str) (s : State)
      → given ≡ ok names
      → (names_ready env cfg stop_err given s).0 ≡ ok (r, none)
      → IsBuilt env cfg names (opened env s)
  unfolding names_ready
  names_ready-IsBuilt (err e) names s k h = absurd cc
  names_ready-IsBuilt (ok ns) names s k h =
      let (client, _, _, ready) =
        bind_ok (try (external env Call.docker_open (λ _. tt))) (client_ready env cfg stop_err ns) s
          (r, none) h in
      subst (λ xs. IsBuilt env cfg xs (opened env s)) (ap (value_or ns) k)
        (client_ready-IsBuilt ns client _ ready)

  -- If `RebuildImages` returns no error and no failed project, every image was built.
  pub rebuild_images-IsBuilt :
      (projects names : List Str) (s : State)
      → (chosen env cfg projects s).0 ≡ ok names
      → (rebuild_images env cfg projects stop_err s).0 ≡ ok (r, none)
      → IsBuilt env cfg names (opened env (chosen env cfg projects s).1)
  unfolding rebuild_images
  rebuild_images-IsBuilt projects names s k h =
      names_ready-IsBuilt (chosen env cfg projects s).0 names (chosen env cfg projects s).1 k h

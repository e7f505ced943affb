-- ===== src/Rebuild/Counts.antt =====
-- What a rebuild of the images (cmd/mistryd/server.go) did when it ends: which projects it counts.
use mistry.Base.{
  suc, ◌+◌, ◌≡◌, refl, ◌⊎◌, inl, inr, Bool, true, false, Option, none, some, List, [], ◌∷◌, ◌++◌,
  arith, length, length-append, Bool-cases, nat_eq, list_eq,
}
use mistry.Base.Text.{Str}
use mistry.Types.{value_or, GoError, Result, ok, err}
use mathlib.Core.Path.{subst, sym, ap, ◌∙◌}
use mistry.System.{Env, Call, try, external, State}
use mistry.System.Steps.{bind_ok}
use mistry.Job.{Config}
use mistry.Rebuild.{
  RebuildResult, PruneResult, no_rebuild, chosen, rebuild_project, rebuild_all, rebuilt,
  with_pruned, docker_prune_unused, rebuild_images, after_rebuild, client_ready, names_ready,
}

-- How the loop over `names`, from the result `r`, may end.
pub record IsRebuilt (stop_err : Bool) (names : List Str) (r : RebuildResult)
    (end : RebuildResult × Option GoError) : Type 0 where
  -- Without an error each project is counted once, and with `stop_err` none failed.
  pub counted :
      end.1 ≡ none
      → end.0.successful + length end.0.failed ≡ r.successful + (length r.failed + length names)
  pub unfailed : end.1 ≡ none → stop_err ≡ true → end.0.failed ≡ r.failed
  -- With one the loop stopped at the first project that failed.
  pub stopped :
      (e : GoError)
      → end.1 ≡ some e
      → (stop_err ≡ true)
        × ((before : List Str) × ((p : Str) × ((after : List Str) × ((names ≡ before ++ (p ∷ after))
                  × ((end.0.successful ≡ r.successful + length before)
                      × (end.0.failed ≡ r.failed ++ (p ∷ [])))))))

-- The loop after one more project is the loop from there.
IsRebuilt-next :
    (stop_err : Bool) (p : Str) (ps : List Str) (r : RebuildResult)
    (end : RebuildResult × Option GoError)
    → IsRebuilt stop_err ps (record r { successful = suc r.successful }) end
    → IsRebuilt stop_err (p ∷ ps) r end
IsRebuilt-next stop_err p ps r end h = record {
  counted = λ e. omega (arith, h.counted e);
  unfailed = h.unfailed;
  stopped = λ e k.
      let (b, (before, (q, (after, (names, (n, f)))))) = h.stopped e k in
      (b, (p ∷ before, (q, (after, (ap (λ xs. p ∷ xs) names, (omega (arith, n), f))))));
}

IsRebuilt-failed :
    (p : Str) (ps : List Str) (r : RebuildResult) (end : RebuildResult × Option GoError)
    → IsRebuilt false ps (record r { failed = r.failed ++ (p ∷ []) }) end
    → IsRebuilt false (p ∷ ps) r end
IsRebuilt-failed p ps r end h = record {
  counted = λ e. omega (arith, h.counted e, length-append r.failed (p ∷ []));
  unfailed = λ e k. cc;
  stopped = λ e k. let got = h.stopped e k in absurd (ground (arith, got.0));
}

module _ (env : Env) (cfg : Config) where
  rebuilt-IsRebuilt :
      (stop_err : Bool) (p : Str) (ps : List Str) (r : RebuildResult) (turn : Result (Unit {0}))
      (s : State) (end : RebuildResult × Option GoError)
      → ((q : RebuildResult)
          → (rebuild_all env cfg stop_err ps q s).0 ≡ ok end
          → IsRebuilt stop_err ps q end)
      → (rebuilt env cfg stop_err p r (rebuild_all env cfg stop_err ps) turn s).0 ≡ ok end
      → IsRebuilt stop_err (p ∷ ps) r end
  unfolding rebuilt
  rebuilt-IsRebuilt stop_err p ps r (ok _) s end ih h =
      IsRebuilt-next stop_err p ps r end (ih (record r { successful = suc r.successful }) h)
  rebuilt-IsRebuilt false p ps r (err e) s end ih h =
      IsRebuilt-failed p ps r end (ih (record r { failed = r.failed ++ (p ∷ []) }) h)
  rebuilt-IsRebuilt true p ps r (err e) s end ih h =
      subst (IsRebuilt true (p ∷ ps) r) (ap (value_or end) h) (record {
        counted = λ k. absurd cc;
        unfailed = λ k. absurd cc;
        stopped = λ d k. (refl, ([], (p, (ps, (refl, (omega arith, refl))))));
      })

  pub rebuild_all-IsRebuilt :
      (stop_err : Bool) (names : List Str) (r : RebuildResult) (s : State)
      (end : RebuildResult × Option GoError)
      → (rebuild_all env cfg stop_err names r s).0 ≡ ok end
      → IsRebuilt stop_err names r end
  unfolding rebuild_all
  rebuild_all-IsRebuilt stop_err [] r s end h =
      subst (IsRebuilt stop_err [] r) (ap (value_or end) h)
        (record { counted = λ k. omega arith; unfailed = λ k b. refl; stopped = λ d k. absurd cc })
  rebuild_all-IsRebuilt stop_err (p ∷ ps) r s end h =
      rebuilt-IsRebuilt stop_err p ps r (rebuild_project env cfg p s).0
        (rebuild_project env cfg p s).1 end
        (λ q. rebuild_all-IsRebuilt stop_err ps q (rebuild_project env cfg p s).1 end) h

abbrev pub SameCounts : RebuildResult → RebuildResult → Type 0
SameCounts q r = (q.successful ≡ r.successful) × (q.failed ≡ r.failed)

with_pruned-ended :
    (q r : RebuildResult) (p : Result PruneResult) → with_pruned q p ≡ (r, none) → SameCounts q r
unfolding with_pruned
with_pruned-ended q r (ok p) h = (ap (λ x. x.0.successful) h, ap (λ x. x.0.failed) h)
with_pruned-ended q r (err e) h = absurd (cc)

-- Without an error the loop was run to its end, and the rest of the result is its.
pub after-ended :
    (env : Env) (end : RebuildResult × Option GoError) (r : RebuildResult) (s : State)
    → (after_rebuild env end s).0 ≡ ok (r, none)
    → (end.1 ≡ none) × SameCounts end.0 r
unfolding after_rebuild
after-ended env (q, some e) r s h = absurd (cc)
after-ended env (q, none) r s h =
    (refl, with_pruned-ended q r (docker_prune_unused env s).0 (ap (value_or (r, none)) h))

module _ (env : Env) (cfg : Config) (stop_err : Bool) (r : RebuildResult) where
  -- What a rebuild of `names` that ended without an error counts.
  abbrev pub Counts : List Str → Type 0
  Counts names =
      (r.successful + length r.failed ≡ length names) × ((r.failed ≡ []) ⊎ (stop_err ≡ false))

  none_failed :
      {names : List Str} {end : RebuildResult × Option GoError}
      → IsRebuilt stop_err names no_rebuild end
      → end.1 ≡ none
      → end.0.failed ≡ r.failed
      → (r.failed ≡ []) ⊎ (stop_err ≡ false)
  none_failed h e f = elim (Bool-cases stop_err) [
    | inl k ↦ inl (sym f ∙ h.unfailed e k)
    | inr k ↦ inr k
  ]

  client_ready-Counts :
      (names : List Str) (client : Result (Unit {0})) (s : State)
      → (client_ready env cfg stop_err names client s).0 ≡ ok (r, none)
      → Counts names
  unfolding client_ready
  client_ready-Counts names (err e) s h = absurd (cc)
  client_ready-Counts names (ok _) s h =
      let (end, loop, _, after) =
        bind_ok (rebuild_all env cfg stop_err names no_rebuild) (after_rebuild env) s (r, none) h in
      let (ended, counted) = after-ended env end r _ after in
      let counts = rebuild_all-IsRebuilt env cfg stop_err names no_rebuild s end loop in
      (
        omega (arith, counts.counted ended, counted.0, ap (λ xs. length xs) counted.1),
        none_failed counts ended counted.1,
      )

  names_ready-Counts :
      (names : Result (List Str)) (s : State)
      → (names_ready env cfg stop_err names s).0 ≡ ok (r, none)
      → (ns : List Str) × ((names ≡ ok ns) × Counts ns)
  unfolding names_ready
  names_ready-Counts (err e) s h = absurd (cc)
  names_ready-Counts (ok ns) s h =
      let (client, _, _, ready) =
        bind_ok (try (external env Call.docker_open (λ _. tt))) (client_ready env cfg stop_err ns) s
          (r, none) h in
      (ns, (refl, client_ready-Counts ns client _ ready))

  -- If `RebuildImages` returns no error, then the projects were given, or listed, and each was
  -- rebuilt or failed, and with `stopErr` none failed.
  pub rebuild_images-Counts :
      (projects : List Str) (s : State)
      → (rebuild_images env cfg projects stop_err s).0 ≡ ok (r, none)
      → (names : List Str) × (((chosen env cfg projects s).0 ≡ ok names) × Counts names)
  unfolding rebuild_images
  rebuild_images-Counts projects s h =
      names_ready-Counts (chosen env cfg projects s).0 (chosen env cfg projects s).1 h

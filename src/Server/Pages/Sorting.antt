-- ===== src/Server/Pages/Sorting.antt =====
-- The index (HandleIndex of cmd/mistryd/server.go) shows each job once, the newest first.
use mathlib.Core.List.{Perm}
use mathlib.Core.List.Perm
use mistry.Base.{
  ℕ, ◌≤◌, ◌≡◌, refl, inl, inr, List, [], ◌∷◌, arith, ltb, All, Bool-cases, ◌==◌, nat_eq, list_eq,
  list_beq_iff,
}
use mistry.Base.Text.{Str, codes}
use mistry.Types.{Result, ok, err, value_or}
use mathlib.Core.Path.{subst, sym, ap, ◌∙◌}
use mistry.System.{Env, State}
use mistry.Job.{Config}
use mistry.Index.{IndexJob, get_jobs}
use mistry.System.Steps.{bind_ok}
use mistry.Server.{Response}
use mistry.Server.Pages.{
  Views, or_500, ok_body, insert_job, newest_first, index_body, handle_index, lift_result,
}
use mistry.Index.Shown.{get_jobs-IsShown}
use mistry.Index.Described.{HasBoth}
use mistry.Index.Described.{projects_in}
use mathlib.Core.List.{map}
use mistry.Index.Described.{key_of}
use mistry.Index.Described.{keys_of}
use mistry.Index.Described.{IsShown}

-- No job stands behind one that started before it.
pub NewestFirst : List IndexJob → Type 0
NewestFirst [] = Unit
NewestFirst (j ∷ js) = All (λ k. k.started_at ≤ j.started_at) js × NewestFirst js

All-insert_job :
    (P : IndexJob → Type 0) (j : IndexJob) (js : List IndexJob)
    → P j
    → All P js
    → All P (insert_job j js)
unfolding insert_job
All-insert_job P j [] h k = (h, tt)
All-insert_job P j (i ∷ is) h k = elim (Bool-cases (ltb j.started_at i.started_at)) [
  | inl e ↦ rw e (k.0, All-insert_job P j is h k.1)
  | inr e ↦ rw e (h, k)
]

All-later :
    (m n : ℕ) (js : List IndexJob)
    → m ≤ n
    → All (λ k. k.started_at ≤ m) js
    → All (λ k. k.started_at ≤ n) js
All-later m n [] h k = tt
All-later m n (j ∷ js) h k = (omega (arith, h, k.0), All-later m n js h k.1)

insert_job-NewestFirst :
    (j : IndexJob) (js : List IndexJob) → NewestFirst js → NewestFirst (insert_job j js)
unfolding insert_job NewestFirst
insert_job-NewestFirst j [] h = (tt, tt)
insert_job-NewestFirst j (i ∷ is) h = elim (Bool-cases (ltb j.started_at i.started_at)) [
  | inl e ↦ rw e (
    All-insert_job (λ k. k.started_at ≤ i.started_at) j is (ground (arith, e)) h.0,
    insert_job-NewestFirst j is h.1,
  )
  | inr e ↦
      rw e ((ground (arith, e), All-later i.started_at j.started_at is (ground (arith, e)) h.0), h)
]

newest_first-NewestFirst : (js : List IndexJob) → NewestFirst (newest_first js)
unfolding newest_first NewestFirst
newest_first-NewestFirst [] = tt
newest_first-NewestFirst (j ∷ js) =
    insert_job-NewestFirst j (newest_first js) (newest_first-NewestFirst js)

insert_job-perm : (j : IndexJob) (js : List IndexJob) → Perm (insert_job j js) (j ∷ js)
unfolding insert_job
insert_job-perm j [] = Perm.rfl
insert_job-perm j (i ∷ is) = elim (Bool-cases (ltb j.started_at i.started_at)) [
  | inl e ↦ rw e (Perm.trans (Perm.cons i (insert_job-perm j is)) (Perm.swap j i is))
  | inr e ↦ rw e Perm.rfl
]

newest_first-perm : (js : List IndexJob) → Perm (newest_first js) js
unfolding newest_first
newest_first-perm [] = Perm.rfl
newest_first-perm (j ∷ js) =
    Perm.trans (insert_job-perm j (newest_first js)) (Perm.cons j (newest_first-perm js))

-- What the index shows of the jobs that it found: each once, the newest first.
pub record IsIndex (views : Views) (jobs : List IndexJob) (body : Str) : Type 0 where
  pub shown : List IndexJob
  pub same : Perm shown jobs
  pub sorted : NewestFirst shown
  pub encoded : views.encode_jobs shown ≡ ok body

module _ (env : Env) (cfg : Config) (views : Views) where
  index_body-ok :
      (s : State) (r : Response)
      → (index_body env cfg views s).0 ≡ ok r
      → (r.status ≡ 200)
        × ((jobs : List IndexJob) × (((get_jobs env cfg s).0 ≡ ok jobs)
              × IsIndex views jobs r.body))
  unfolding index_body
  index_body-ok s r h =
      let (jobs, found, _, rest) = bind_ok (get_jobs env cfg) _ s r h in
      let (body, encoded, _, last) =
        bind_ok (lift_result (views.encode_jobs (newest_first jobs))) _ _ r rest in
      let made : ok_body body ≡ r = ap (value_or r) last in
      (
        ap (λ x. x.status) (sym made),
        (
          jobs,
          (
            found,
            record {
              shown = newest_first jobs;
              same = newest_first-perm jobs;
              sorted = newest_first-NewestFirst jobs;
              encoded = encoded ∙ ap (λ x. ok x.body) made;
            },
          ),
        ),
      )

  or_500-ok : (p : Result Response × State) → (or_500 p).0.status ≡ 200 → p.0 ≡ ok (or_500 p).0
  or_500-ok (ok r, s) h = refl
  or_500-ok (err e, s) h = absurd (ground (arith, h))

  Indexes : State → Response → Type 0
  Indexes s r =
      (jobs : List IndexJob) × (((get_jobs env cfg s).0 ≡ ok jobs) × IsIndex views jobs r.body)

  -- If the index answers 200, where each directory of the build path has a pending and a ready
  -- directory, then the method was GET, and the body shows a list of jobs, none behind one that
  -- started before it, that has each name in the pending and in the ready directory of each of these
  -- projects once, under its project and its state, and no other; and each job has the info that the
  -- info file in its directory holds, and the time of the start in it.
  pub handle_index-IsIndex :
      (method : Str) (s : State)
      → All (HasBoth cfg s.files) (projects_in cfg s.files)
      → (handle_index env cfg views method s).0.status ≡ 200
      → (method ≡ codes "GET")
        × ((jobs : List IndexJob) × ((map key_of jobs
                ≡ keys_of cfg s.files (projects_in cfg s.files))
              × (All (IsShown cfg s.files) jobs
                  × IsIndex views jobs (handle_index env cfg views method s).0.body)))
  unfolding handle_index Indexes
  handle_index-IsIndex method s both h = elim (Bool-cases (method == codes "GET")) [
    | inl e ↦
        let got : handle_index env cfg views method s ≡ or_500 (index_body env cfg views s) =
          rw e refl in
        let (jobs, (found, index)) =
          subst (Indexes s) (sym (ap (λ p. p.0) got))
            (index_body-ok s _
              (or_500-ok (index_body env cfg views s) (ap (λ p. p.0.status) (sym got) ∙ h))).1 in
        let (keys, shown) = get_jobs-IsShown env cfg jobs s both found in
        (ground (arith, e, list_beq_iff method (codes "GET")), (jobs, (keys, (shown, index))))
    | inr e ↦ absurd (ground (arith, e, h))
  ]

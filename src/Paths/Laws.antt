-- ===== src/Paths/Laws.antt =====
-- `join` at names that are one piece, and at the program's constants.
use mathlib.Core.List.{append_assoc}
use mistry.Base.{◌≡◌, refl, true, List, [], ◌∷◌, ◌++◌, arith, nat_eq, list_eq, ◌∙◌}
use mistry.Base.Text.{Str, codes}
use mistry.Base.Split.{split-whole}
use mistry.Paths.{
  FilePath, slash, join, is_name, data_dir, params_dir, build_info_fname, artifacts_dir, cache_dir,
}

pub join_name :
    (p : FilePath) (s : Str) (rest : List Str)
    → is_name s ≡ true
    → join p (s ∷ rest) ≡ join (p ++ (s ∷ [])) rest
unfolding join
join_name p s rest h = ground (arith, split-whole s slash)

pub join_nil : (p : FilePath) → join p [] ≡ p
unfolding join
join_nil p = refl

pub join_data :
    (p : FilePath) (rest : List Str)
    → join p (data_dir ∷ rest) ≡ join (p ++ (codes "data" ∷ [])) rest
unfolding join
join_data p rest = refl

pub join_params : (p : FilePath) → join p (params_dir ∷ []) ≡ p ++ (codes "params" ∷ [])
unfolding join
join_params p = refl

pub join_build_info : (p : FilePath) → join p (build_info_fname ∷ []) ≡ p ++ (build_info_fname ∷ [])
unfolding join
join_build_info p = refl

pub join_one : (p : FilePath) (s : Str) → is_name s ≡ true → join p (s ∷ []) ≡ p ++ (s ∷ [])
join_one p s h = join_name p s [] h ∙ join_nil _

pub join_two :
    (p : FilePath) (s t : Str)
    → is_name s ≡ true
    → is_name t ≡ true
    → join p (s ∷ t ∷ []) ≡ p ++ (s ∷ t ∷ [])
join_two p s t h k = join_name p s (t ∷ []) h ∙ join_one _ t k ∙ append_assoc p (s ∷ []) (t ∷ [])

-- The directories of a build below its own.
pub join-data_dir : (p : FilePath) → join p (data_dir ∷ []) ≡ p ++ (codes "data" ∷ [])
unfolding join
join-data_dir p = refl

pub join-params_dir :
    (p : FilePath) → join p (data_dir ∷ params_dir ∷ []) ≡ p ++ (codes "data" ∷ codes "params" ∷ [])
unfolding join
join-params_dir p = append_assoc p _ _

pub join-cache_dir :
    (p : FilePath) → join p (data_dir ∷ cache_dir ∷ []) ≡ p ++ (codes "data" ∷ codes "cache" ∷ [])
unfolding join
join-cache_dir p = append_assoc p _ _

pub join-artifacts_dir :
    (p : FilePath)
    → join p (data_dir ∷ artifacts_dir ∷ []) ≡ p ++ (codes "data" ∷ codes "artifacts" ∷ [])
unfolding join
join-artifacts_dir p = append_assoc p _ _

pub join-param_file :
    (p : FilePath) (k : Str)
    → is_name k ≡ true
    → join p (data_dir ∷ params_dir ∷ k ∷ []) ≡ p ++ (codes "data" ∷ codes "params" ∷ k ∷ [])
unfolding join
join-param_file p k h =
    join_one _ k h ∙ append_assoc (p ++ (codes "data" ∷ [])) _ _ ∙ append_assoc p _ _

-- ===== src/Session/Tokio.antt =====
-- The two answers to whether a compilation binds Tokio.
use rust_compile_time_instru.Prelude.{
  String, ◌≡◌, refl, ◌↔◌, inl, inr, true, ◌||◌, Option, none, some, List, [], ◌∷◌, arith,
  Bool-cases, Option-cases, any, every, Result, ok, err,
}
use rust_compile_time_instru.Session.Rustc.{rustc_target, rustc_profile, extern_crate_path}
use rust_compile_time_instru.Session.Plan.{SessionPlan, TokioArtifact, CargoDepEdge}
use rust_compile_time_instru.Session.{
  filter, fits, paths_refer_to_same_file, or_default, Files, TokioError, lookup, tokio_edges,
  some_all, resolves_to_tokio, edges_error, edges_result, validated, found_artifact, is_empty,
  package_id_for_source, tokio_artifact_for, unit_has_real_tokio_metadata_binding,
  unit_has_real_tokio_binding, validate_tokio_binding,
}

edges_agree :
    (plan : SessionPlan) (es : List CargoDepEdge)
    → (edges_error plan es ≡ none) ↔ (every (resolves_to_tokio plan) es ≡ true)
unfolding edges_error resolves_to_tokio
edges_agree plan [] = (λ e. refl, λ e. refl)
edges_agree plan (e ∷ es) = let i = edges_agree plan es in ground arith

validated_agree :
    (r : Result (Option TokioArtifact) TokioError)
    → (validated r ≡ none) ↔ (found_artifact r ≡ true)
validated_agree (ok (some a)) = (λ e. refl, λ e. refl)
validated_agree (ok none) = (λ e. absurd cc, λ e. absurd cc)
validated_agree (err e) = (λ e. absurd cc, λ e. absurd cc)

edges_result_agree :
    (plan : SessionPlan) (last : Option TokioError) (es : List CargoDepEdge)
    → (edges_result plan last es ≡ none)
      ↔ ((some_all (resolves_to_tokio plan) es ≡ true) × (last ≡ none))
edges_result_agree plan last [] = (λ e. absurd cc, λ e. absurd (cc (e.0)))
edges_result_agree plan last (e ∷ es) = let i = edges_agree plan (e ∷ es) in ground arith

-- A compilation is said to bind Tokio exactly when the validation reports no error, whatever the
-- plan, the arguments and the files are.
pub tokio_answers_agree :
    (files : Files) (plan : SessionPlan) (source : String) (args : List String)
    → (validate_tokio_binding files plan source args ≡ none)
      ↔ (unit_has_real_tokio_binding files plan source args ≡ true)
unfolding validate_tokio_binding unit_has_real_tokio_binding unit_has_real_tokio_metadata_binding
tokio_answers_agree files plan source args =
    let v = validated_agree (tokio_artifact_for files plan source args) in
    elim (Option-cases (package_id_for_source files plan source)) [
      | inl n ↦ ground arith
      | inr id ↦ elim (Option-cases (lookup plan.package_dependencies (id.0))) [
        | inl n ↦ ground arith
        | inr deps ↦
            let empty = edges_result_agree plan none (tokio_edges (deps.0)) in
            let artifact =
              edges_result_agree plan (validated (tokio_artifact_for files plan source args))
                (tokio_edges (deps.0)) in
            elim (Bool-cases (is_empty plan.tokio_artifacts)) [
              | inl e ↦ ground arith
              | inr e ↦ ground arith
            ]
      ]
    ]

-- What the artifact of a compilation has been checked for.
pub record IsGenuine (files : Files) (plan : SessionPlan) (args : List String) (a : TokioArtifact)
    : Type 0 where
  pub tokio_id : String
  pub only_one :
      filter (fits tokio_id (rustc_target args) (rustc_profile args)) plan.tokio_artifacts ≡ a ∷ []
  pub present : files.is_file a.rlib_path ≡ true
  pub path : String
  pub bound : extern_crate_path args "tokio" ≡ some path
  pub same :
      (paths_refer_to_same_file files a.rlib_path path
        || any
            (λ p. paths_refer_to_same_file files p path)
            (or_default (lookup plan.artifact_metadata_paths a.rlib_path) []))
      ≡ true

-- ===== src/Session/Otel.antt =====
-- cargo-instrument/src/session.rs: the OpenTelemetry artifact that a compilation links natively.
use rust_compile_time_instru.Prelude.{
  String, ◌≡◌, ◌⊎◌, Bool, true, false, not, ◌&&◌, ◌||◌, Option, none, some, List, [], ◌∷◌, str_eq,
  if◌then◌else◌, any, every, Result, ok, err,
}
use rust_compile_time_instru.Session.Rustc.{
  R4Profile, same_profile, same_target, rustc_target, rustc_profile, rustc_has_extern_binding,
  extern_crate_path,
}
use rust_compile_time_instru.Session.Plan.{SessionPlan, R4NativeOtelArtifact}
use rust_compile_time_instru.Session.{
  Files, lookup, filter, or_default, paths_refer_to_same_file, package_id_for_source,
}

pub data OtelError : Type 0 where
  no_artifact : OtelError
  lacks_features : OtelError
  mismatched_path : OtelError
  no_artifact_path : OtelError
  artifact_gone : OtelError
  multiple_artifacts : OtelError

-- The file is the artifact's, or one that Cargo lists with it.
unfoldable pub is_listed : Files → SessionPlan → R4NativeOtelArtifact → String → Bool
is_listed files plan a path =
    paths_refer_to_same_file files a.rlib_path path
    || any (λ p. paths_refer_to_same_file files p path)
        (or_default (lookup plan.artifact_metadata_paths a.rlib_path) [])

abbrev required_features : SessionPlan → String → List String
required_features plan id =
    or_default (lookup plan.r4_required_features_by_dependency id) ("trace" ∷ [])

abbrev has_features : R4NativeOtelArtifact → List String → Bool
has_features a required = every (λ r. any (λ f. str_eq f r) a.resolved_features) required

-- The two invariants of the artifact that was found.
unfoldable pub check_artifact :
    Files
    → SessionPlan
    → List String
    → String
    → R4NativeOtelArtifact
    → Result (Option R4NativeOtelArtifact) OtelError
check_artifact files plan args id a =
    if not (files.is_file a.rlib_path)
    then err artifact_gone
    else if not (has_features a (required_features plan id))
    then err lacks_features
    else elim (extern_crate_path args "opentelemetry") [
      | none ↦
          if rustc_has_extern_binding args "opentelemetry"
          then err no_artifact_path
          else ok (some a)
      | some path ↦ if is_listed files plan a path then ok (some a) else err mismatched_path
    ]

-- The `match` on the artifacts that fit.
abbrev pub check_matches :
    (R4NativeOtelArtifact → Result (Option R4NativeOtelArtifact) OtelError)
    → List R4NativeOtelArtifact
    → Result (Option R4NativeOtelArtifact) OtelError
check_matches check [] = err no_artifact
check_matches check (a ∷ []) = check a
check_matches check (a ∷ b ∷ more) = err multiple_artifacts

abbrev pub fits : String → Option String → R4Profile → R4NativeOtelArtifact → Bool
fits otel target profile a =
    str_eq a.package_id otel && (same_target a.target target && same_profile a.profile profile)

unfoldable pub r4_native_otel_artifact_for :
    Files → SessionPlan → String → List String → Result (Option R4NativeOtelArtifact) OtelError
r4_native_otel_artifact_for files plan source args =
    elim (package_id_for_source files plan source) [
      | none ↦ ok none
      | some id ↦ elim (lookup plan.r4_otel_package_by_dependency id) [
        | none ↦ ok none
        | some otel ↦ check_matches (check_artifact files plan args id) (
            filter (fits otel (rustc_target args) (rustc_profile args))
              plan.r4_native_otel_artifacts)
      ]
    ]

abbrev is_found : Result (Option R4NativeOtelArtifact) OtelError → Bool
is_found (ok (some a)) = true
is_found _ = false

unfoldable pub application_has_native_otel_trace :
    Files → SessionPlan → String → List String → Bool → Bool
application_has_native_otel_trace files plan source args has_otel =
    has_otel && is_found (r4_native_otel_artifact_for files plan source args)

-- How the arguments bind `opentelemetry`: not at all, or to the artifact.
abbrev Binds : Files → SessionPlan → List String → R4NativeOtelArtifact → Type 0
Binds files plan args a =
    (extern_crate_path args "opentelemetry" ≡ none)
      × (rustc_has_extern_binding args "opentelemetry" ≡ false)
    ⊎ (path : String) × (extern_crate_path args "opentelemetry" ≡ some path)
      × (is_listed files plan a path ≡ true)

-- The artifact is the one that the plan demands for the source, and agrees with the arguments.
pub record IsSelected (files : Files) (plan : SessionPlan) (source : String) (args : List String)
    (a : R4NativeOtelArtifact) : Type 0 where
  pub owner : String
  pub of_source : package_id_for_source files plan source ≡ some owner
  pub otel : String
  pub of_package : lookup plan.r4_otel_package_by_dependency owner ≡ some otel
  pub only_one :
      filter (fits otel (rustc_target args) (rustc_profile args)) plan.r4_native_otel_artifacts
      ≡ a ∷ []
  pub present : files.is_file a.rlib_path ≡ true
  pub featured : has_features a (required_features plan owner) ≡ true
  pub bound : Binds files plan args a

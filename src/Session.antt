-- ===== src/Session.antt =====
-- cargo-instrument/src/session.rs: the part of the session plan that decides whether `tokio` in a
-- compilation is Tokio. A `HashMap` is an association list, in the order of its iteration. The error
-- messages are the constructors of `TokioError`. The file system is a record of what it answers.
pub mod Rustc
pub mod Plan
pub mod Tokio
pub mod Otel
pub mod Gates
pub mod Closure
pub mod Messages
pub mod Register
pub mod Specs
use rust_compile_time_instru.Prelude.{
  ℕ, ◌+◌, String, ◌<>◌, Bool, true, false, not, ◌&&◌, ◌||◌, Option, none, some, List, [], ◌∷◌, leb,
  str_eq, if◌then◌else◌, any, every, Result, ok, err,
}
use rust_compile_time_instru.Text.{normalize, starts_with}
use rust_compile_time_instru.Session.Plan.{TokioArtifact, CargoDepEdge, SessionPlan}
use rust_compile_time_instru.Session.Rustc.{
  R4Profile, same_profile, same_target, rustc_target, rustc_profile, rustc_has_extern_binding,
  extern_crate_path,
}

-- `fs::canonicalize` and `Path::is_file`.
pub record Files : Type 0 where
  pub canonicalize : String → Option String
  pub is_file : String → Bool

pub data TokioError : Type 0 where
  no_extern_binding : TokioError
  unknown_source : TokioError
  no_dependencies : TokioError
  no_tokio_edge : TokioError
  bound_to_other : TokioError
  unresolved_name : TokioError
  not_mapped : TokioError
  no_artifact : TokioError
  lacks_features : TokioError
  mismatched_path : TokioError
  no_artifact_path : TokioError
  artifact_gone : TokioError
  multiple_artifacts : TokioError

-- `HashMap::get`
unfoldable pub lookup : {A : Type 0} → List (String × A) → String → Option A
lookup [] k = none
lookup (e ∷ es) k = let rest = lookup es k in if str_eq (e.0) k then some (e.1) else rest

unfoldable pub filter : {A : Type 0} → (A → Bool) → List A → List A
filter p [] = []
filter p (x ∷ xs) = let rest = filter p xs in if p x then x ∷ rest else rest

-- `components().count()`, of a path written without a final `/`, is one more than its slashes.
unfoldable pub components : String → ℕ
components String.[] = 1
components (String.◌∷◌ c s) = (if starts_with (String.◌∷◌ c s) "/" then 1 else 0) + components s

-- `max_by_key`, which keeps the last of the greatest.
unfoldable pub deepest :
    Option (String × String) → List (String × String) → Option (String × String)
deepest best [] = best
deepest none (e ∷ es) = deepest (some e) es
deepest (some b) (e ∷ es) =
    deepest (if leb (components (b.1)) (components (e.1)) then some e else some b) es

-- `Path::starts_with`, by whole components.
abbrev pub in_directory : String → String → Bool
in_directory p dir = str_eq p dir || starts_with p (dir <> "/")

abbrev pub canonical_in : Option String → String → Bool
canonical_in none source = false
canonical_in (some dir) source = in_directory source dir

abbrev pub fst_of : Option (String × String) → Option String
fst_of none = none
fst_of (some e) = some (e.0)

-- `fs::canonicalize(source_file).ok()?` and the second search.
unfoldable pub package_id_for_canonical : Files → SessionPlan → Option String → Option String
package_id_for_canonical files plan none = none
package_id_for_canonical files plan (some source) = fst_of (
    deepest none
      (filter (λ e. canonical_in (files.canonicalize (e.1)) source) plan.package_manifest_dirs))

unfoldable pub package_id_for_source : Files → SessionPlan → String → Option String
package_id_for_source files plan source =
    elim (deepest none (filter (λ e. in_directory source (e.1)) plan.package_manifest_dirs)) [
      | some e ↦ some (e.0)
      | none ↦ package_id_for_canonical files plan (files.canonicalize source)
    ]

abbrev pub is_tokio : String → Bool
is_tokio n = str_eq n "tokio" || str_eq (normalize n) "tokio"

unfoldable pub tokio_edges : List CargoDepEdge → List CargoDepEdge
tokio_edges deps = filter (λ e. is_tokio e.binding_name) deps

abbrev pub is_tokio_name : Option String → Bool
is_tokio_name none = false
is_tokio_name (some n) = is_tokio n

unfoldable pub resolves_to_tokio : SessionPlan → CargoDepEdge → Bool
resolves_to_tokio plan e = is_tokio_name (lookup plan.package_names_by_id e.package_id)

abbrev pub some_all : (CargoDepEdge → Bool) → List CargoDepEdge → Bool
some_all p [] = false
some_all p (e ∷ es) = every p (e ∷ es)

-- The conditions 2 to 5, of the package's dependencies.
unfoldable pub unit_has_real_tokio_metadata_binding :
    Files → SessionPlan → String → List String → Bool
unit_has_real_tokio_metadata_binding files plan source args =
    if not (rustc_has_extern_binding args "tokio")
    then false
    else elim (package_id_for_source files plan source) [
      | none ↦ false
      | some id ↦ elim (lookup plan.package_dependencies id) [
        | none ↦ false
        | some deps ↦ some_all (resolves_to_tokio plan) (tokio_edges deps)
      ]
    ]

-- The fallback of `tokio_artifact_for`: the only edge that binds Tokio as `tokio`.
abbrev pub only_package : List CargoDepEdge → Option String
only_package [] = none
only_package (e ∷ []) = some e.package_id
only_package (e ∷ f ∷ es) = none

unfoldable pub tokio_package_of : SessionPlan → String → Option String
tokio_package_of plan id = elim (lookup plan.tokio_package_by_dependency id) [
  | some t ↦ some t
  | none ↦ elim (lookup plan.package_dependencies id) [
    | none ↦ none
    | some deps ↦
        only_package (filter (λ e. is_tokio e.binding_name && resolves_to_tokio plan e) deps)
  ]
]

abbrev pub same_canonical : Option String → Option String → Bool
same_canonical (some a) (some b) = str_eq a b
same_canonical _ _ = false

unfoldable pub paths_refer_to_same_file : Files → String → String → Bool
paths_refer_to_same_file files p q =
    if not (files.is_file p) || not (files.is_file q)
    then false
    else if str_eq p q
    then true
    else same_canonical (files.canonicalize p) (files.canonicalize q)

abbrev pub or_default : {A : Type 0} → Option A → A → A
or_default none a = a
or_default (some b) a = b

-- The two invariants of the artifact that was found.
unfoldable pub check_artifact :
    Files
    → SessionPlan
    → List String
    → String
    → TokioArtifact
    → Result (Option TokioArtifact) TokioError
check_artifact files plan args id a =
    let required = or_default (lookup plan.tokio_required_features_by_dependency id) ("rt" ∷ []) in
    let listed = or_default (lookup plan.artifact_metadata_paths a.rlib_path) [] in
    if not (files.is_file a.rlib_path)
    then err artifact_gone
    else if not (every (λ r. any (λ f. str_eq f r) a.resolved_features) required)
    then err lacks_features
    else elim (extern_crate_path args "tokio") [
      | none ↦ err no_artifact_path
      | some path ↦
          if paths_refer_to_same_file files a.rlib_path path
            || any (λ p. paths_refer_to_same_file files p path) listed
          then ok (some a)
          else err mismatched_path
    ]

-- The `match` on the artifacts that fit.
abbrev pub check_matches :
    (TokioArtifact → Result (Option TokioArtifact) TokioError)
    → List TokioArtifact
    → Result (Option TokioArtifact) TokioError
check_matches check [] = err no_artifact
check_matches check (a ∷ []) = check a
check_matches check (a ∷ b ∷ more) = err multiple_artifacts

abbrev pub fits : String → Option String → R4Profile → TokioArtifact → Bool
fits t target profile a =
    str_eq a.package_id t && (same_target a.target target && same_profile a.profile profile)

unfoldable pub tokio_artifact_for :
    Files → SessionPlan → String → List String → Result (Option TokioArtifact) TokioError
tokio_artifact_for files plan source args = elim (package_id_for_source files plan source) [
  | none ↦ ok none
  | some id ↦ elim (tokio_package_of plan id) [
    | none ↦ ok none
    | some t ↦
        check_matches (check_artifact files plan args id)
          (filter (fits t (rustc_target args) (rustc_profile args)) plan.tokio_artifacts)
  ]
]

abbrev pub is_empty : List TokioArtifact → Bool
is_empty [] = true
is_empty (a ∷ more) = false

abbrev pub found_artifact : Result (Option TokioArtifact) TokioError → Bool
found_artifact (ok (some a)) = true
found_artifact _ = false

unfoldable pub unit_has_real_tokio_binding : Files → SessionPlan → String → List String → Bool
unit_has_real_tokio_binding files plan source args =
    if not (unit_has_real_tokio_metadata_binding files plan source args)
    then false
    else if is_empty plan.tokio_artifacts
    then true
    else found_artifact (tokio_artifact_for files plan source args)

-- The loop of `validate_tokio_binding` over the edges.
unfoldable pub edges_error : SessionPlan → List CargoDepEdge → Option TokioError
edges_error plan [] = none
edges_error plan (e ∷ es) =
    let rest = edges_error plan es in
    elim (lookup plan.package_names_by_id e.package_id) [
      | none ↦ some unresolved_name
      | some n ↦ if is_tokio n then rest else some bound_to_other
    ]

abbrev pub validated : Result (Option TokioArtifact) TokioError → Option TokioError
validated (ok (some a)) = none
validated (ok none) = some not_mapped
validated (err e) = some e

abbrev pub edges_result : SessionPlan → Option TokioError → List CargoDepEdge → Option TokioError
edges_result plan last [] = some no_tokio_edge
edges_result plan last (e ∷ es) = elim (edges_error plan (e ∷ es)) [
  | some error ↦ some error
  | none ↦ last
]

-- `validate_tokio_binding`; `none` is `Ok(())`.
unfoldable pub validate_tokio_binding :
    Files → SessionPlan → String → List String → Option TokioError
validate_tokio_binding files plan source args =
    let last =
      if is_empty plan.tokio_artifacts
      then none
      else validated (tokio_artifact_for files plan source args) in
    if not (rustc_has_extern_binding args "tokio")
    then some no_extern_binding
    else elim (package_id_for_source files plan source) [
      | none ↦ some unknown_source
      | some id ↦ elim (lookup plan.package_dependencies id) [
        | none ↦ some no_dependencies
        | some deps ↦ edges_result plan last (tokio_edges deps)
      ]
    ]

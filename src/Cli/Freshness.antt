-- ===== src/Cli/Freshness.antt =====
-- cargo-instrument/src/main.rs: which packages are to be instrumented and which artifacts have to
-- stay. A value of Cargo's metadata is what `as_str` gives of it; an array that is absent is empty.
use rust_compile_time_instru.Prelude.{
  String, ◌≡◌, ◌↔◌, Bool, true, not, ◌&&◌, ◌||◌, Option, none, some, List, [], ◌∷◌, str_eq,
  if◌then◌else◌,
}
use rust_compile_time_instru.Text.{starts_with}
use rust_compile_time_instru.Sets.{contains, insert}
use rust_compile_time_instru.Graph.{Edges, Reach}
use rust_compile_time_instru.Graph.Retain.{Retained, closure, fuel_for}
use rust_compile_time_instru.Graph.Retain.Closure.{closure-Reach}
use rust_compile_time_instru.Session.Messages.{texts}
use rust_compile_time_instru.Session.Register.{Package}
use rust_compile_time_instru.Session.Plan.{SessionPlan, R4NativeOtelArtifact}

-- A node of the metadata's graph, with `pkg` of its dependencies.
pub record Node : Type 0 where
  pub id : Option String
  pub deps : List (Option String)

unfoldable pub is_left_alone : String → Bool
is_left_alone name =
    str_eq name "opentelemetry"
    || (starts_with name "opentelemetry_"
        || (str_eq name "otel-shim" || (str_eq name "otel_shim" || str_eq name "cargo-instrument")))

unfoldable pub is_desired : Bool → SessionPlan → Package → String → String → Bool
is_desired registry_enabled plan p id name =
    not (
      not (contains plan.target_reachable_package_ids id)
      || (contains plan.wrapper_excluded_package_ids id || is_left_alone name))
    && (p.source_is_null || registry_enabled)

abbrev if_desired : Bool → SessionPlan → Package → Option String → Option String → Option String
if_desired registry_enabled plan p (some id) (some name) =
    if is_desired registry_enabled plan p id name then some id else none
if_desired registry_enabled plan p _ _ = none

abbrev collected : Option String → List String → List String
collected none ids = ids
collected (some id) ids = insert ids id

unfoldable pub desired_instrumented_package_ids : Bool → SessionPlan → List Package → List String
desired_instrumented_package_ids registry_enabled plan [] = []
desired_instrumented_package_ids registry_enabled plan (p ∷ packages) =
    collected (if_desired registry_enabled plan p p.id p.name)
      (desired_instrumented_package_ids registry_enabled plan packages)

-- The map from a package to its dependencies: a later node of the same package takes the place of
-- an earlier one.
unfoldable pub edges_from : Edges → List Node → Edges
edges_from edges [] = edges
edges_from edges (n ∷ nodes) = elim n.id [
  | none ↦ edges_from edges nodes
  | some id ↦ edges_from ((id, texts n.deps) ∷ edges) nodes
]

-- The packages of the native artifacts, as a set.
unfoldable pub artifact_packages : List R4NativeOtelArtifact → List String
artifact_packages [] = []
artifact_packages (a ∷ artifacts) = insert (artifact_packages artifacts) a.package_id

-- With fuel for every package in the queue and every edge.
unfoldable pub retained_artifact_closure : SessionPlan → List Node → Option (List String)
retained_artifact_closure plan nodes =
    let edges = edges_from [] nodes in
    let ids = artifact_packages plan.r4_native_otel_artifacts in
    let s : Retained = record { retained = ids; queue = ids } in closure (fuel_for edges s) edges s

-- The packages that are retained, and which they are.
abbrev pub Retains : SessionPlan → List Node → List String → Type 0
Retains plan nodes ids =
    (retained_artifact_closure plan nodes ≡ some ids)
    × ((id : String)
        → (contains ids id ≡ true)
          ↔ Reach (edges_from [] nodes) (artifact_packages plan.r4_native_otel_artifacts) id)

-- The closure is always found, and retains exactly the packages of the native artifacts and whatever
-- they depend on, over any number of steps.
pub retained_exact :
    (plan : SessionPlan) (nodes : List Node) → (ids : List String) × Retains plan nodes ids
unfolding retained_artifact_closure
retained_exact plan nodes =
    let r = closure-Reach (edges_from [] nodes) (artifact_packages plan.r4_native_otel_artifacts) in
    (r.0, (r.1, r.2))

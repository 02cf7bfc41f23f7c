-- ===== src/Session/Closure.antt =====
-- cargo-instrument/src/session.rs: `configure_dependency_only_policy`.
use rust_compile_time_instru.Prelude.{
  String, ◌≡◌, refl, ◌↔◌, ◌⊎◌, true, ◌||◌, Option, none, some, List, [], ◌∷◌, ◌++◌, map, str_eq,
  if◌then◌else◌,
}
use rust_compile_time_instru.Text.{starts_with}
use rust_compile_time_instru.Sets.{contains}
use rust_compile_time_instru.Graph.{Edges, Reach}
use rust_compile_time_instru.Graph.Exclude.{Search, search, fuel_for, search-Reach}
use rust_compile_time_instru.Session.Plan.{SessionPlan, CargoDepEdge}

-- The graph of `package_dependencies`, without the names of the bindings.
unfoldable pub edges_of : List (String × List CargoDepEdge) → Edges
edges_of [] = []
edges_of (e ∷ es) = (e.0, map (λ edge. edge.package_id) (e.1)) ∷ edges_of es

-- The packages of telemetry and of the executor, last first, as they come from the stack.
unfoldable pub telemetry_roots : List (String × String) → List String
telemetry_roots [] = []
telemetry_roots (e ∷ names) =
    let rest = telemetry_roots names in
    if starts_with (e.1) "opentelemetry" || (str_eq (e.1) "otel-shim" || str_eq (e.1) "tokio")
    then rest ++ (e.0 ∷ [])
    else rest

abbrev pub first_search : SessionPlan → Search
first_search plan = record {
  queue = telemetry_roots plan.package_names_by_id;
  visited = [];
  excluded = plan.workspace_package_ids;
}

-- The search, with fuel for every package on the stack and every edge of the graph.
unfoldable pub exclusion_of : SessionPlan → Option (List String)
exclusion_of plan =
    let edges = edges_of plan.package_dependencies in
    search (fuel_for edges (first_search plan)) edges (first_search plan)

unfoldable pub configure_dependency_only_policy : SessionPlan → Option SessionPlan
configure_dependency_only_policy plan = elim (exclusion_of plan) [
  | none ↦ none
  | some ids ↦ some (record plan { wrapper_excluded_package_ids = ids })
]

-- The plan that excludes these packages, and which they are.
abbrev pub Excludes : SessionPlan → List String → Type 0
Excludes plan ids =
    (configure_dependency_only_policy plan
      ≡ some (record plan { wrapper_excluded_package_ids = ids }))
    × ((id : String)
        → (contains ids id ≡ true) ↔ (
            (contains plan.workspace_package_ids id ≡ true)
            ⊎ Reach (edges_of plan.package_dependencies) (telemetry_roots plan.package_names_by_id)
                id))

-- The policy is always configured, and excludes exactly the packages of the workspace, those of
-- telemetry and of the executor, and whatever they depend on, over any number of steps.
pub exclusion_exact : (plan : SessionPlan) → (ids : List String) × Excludes plan ids
unfolding configure_dependency_only_policy exclusion_of
exclusion_exact plan =
    let edges = edges_of plan.package_dependencies in
    let roots = telemetry_roots plan.package_names_by_id in
    let r = search-Reach edges roots plan.workspace_package_ids in
    let found : exclusion_of plan ≡ some (r.0) = r.1 in
    (r.0, (rw (configure_dependency_only_policy, found) refl, r.2))

-- ===== src/Examples/Graphs.antt =====
-- A build whose `dep` uses OpenTelemetry, which uses `log`.
use rust_compile_time_instru.Prelude.{
  String, ◌≡◌, refl, true, false, none, some, List, [], ◌∷◌, str_eq,
}
use rust_compile_time_instru.Sets.{contains, insert}
use rust_compile_time_instru.Session.Rustc.{R4Profile}
use rust_compile_time_instru.Session.Plan.{
  SessionPlan, R4NativeOtelArtifact, CargoDepEdge, empty_plan,
}
use rust_compile_time_instru.Session.{Files}
use rust_compile_time_instru.Session.Messages.{Message, Lines}
use rust_compile_time_instru.Session.Closure.{Excludes, exclusion_exact}
use rust_compile_time_instru.Session.Register.{Package, add_r4_artifacts_from_cargo_json}
use rust_compile_time_instru.Session.Register.Unique.{
  IsUnique, IsRegistry, IsClearPlan, added_artifacts_clear,
}
use rust_compile_time_instru.Session.Specs.Named.{Selects, selected_named}
use rust_compile_time_instru.Session.Specs.{
  selected_ids, resolve_all, resolve_package_spec, has_id, name_and_version, matching,
}
use rust_compile_time_instru.Text.{
  strip_prefix, starts_with, split_once, normalize, dash_to_underscore,
}
use rust_compile_time_instru.Cli.Freshness.{Node, Retains, retained_exact}
use rust_compile_time_instru.Cli.Acquire.{Prepass, Site}

abbrev edge_to : String → CargoDepEdge
edge_to id = record { binding_name = id; package_id = id; kinds = none ∷ [] }

abbrev release : R4Profile
release = record {
  opt_level = "3";
  debug_assertions = false;
  overflow_checks = false;
  test = false;
}

abbrev otel : R4NativeOtelArtifact
otel = record {
  package_id = "otel 1";
  package_version = "1";
  resolved_features = "trace" ∷ [];
  target = none;
  profile = release;
  rlib_path = "/t/libotel.rlib";
}

abbrev plan : SessionPlan
plan = record empty_plan {
  workspace_package_ids = "shop 1" ∷ [];
  target_reachable_package_ids = "dep 1" ∷ [];
  package_manifest_dirs = ("dep 1", "/r/dep") ∷ [];
  package_names_by_id = ("otel 1", "opentelemetry") ∷ ("dep 1", "dep") ∷ [];
  package_dependencies =
      ("dep 1", edge_to "otel 1" ∷ []) ∷ ("otel 1", edge_to "log 1" ∷ edge_to "otel 1" ∷ []) ∷ [];
  r4_otel_package_by_dependency = ("dep 1", "otel 1") ∷ [];
  r4_native_otel_artifacts = otel ∷ [];
}

abbrev disk : Files
disk = record { canonicalize = λ p. some p; is_file = λ p. str_eq p "/t/libotel.rlib" }

abbrev release_args : List String
release_args = "-C" ∷ "opt-level=3" ∷ "src/lib.rs" ∷ []

exclusion_exact_example : (ids : List String) × Excludes plan ids
exclusion_exact_example = exclusion_exact plan

abbrev nodes : List Node
nodes =
    record { id = some "dep 1"; deps = some "otel 1" ∷ [] }
    ∷ record { id = some "otel 1"; deps = some "log 1" ∷ none ∷ [] }
    ∷ []

retained_exact_example : (ids : List String) × Retains plan nodes ids
retained_exact_example = retained_exact plan nodes

abbrev packages : List Package
packages =
    record { id = some "dep 1"; name = some "dep"; version = some "1"; source_is_null = true }
    ∷ record {
      id = some "otel 1";
      name = some "opentelemetry";
      version = some "1";
      source_is_null = false;
    }
    ∷ []

abbrev clean_dep : List (List String)
clean_dep = ("clean" ∷ "--target-dir" ∷ "/t" ∷ "--package" ∷ "dep" ∷ []) ∷ []

selected :
    selected_ids ("dep" ∷ "opentelemetry@1" ∷ []) (some packages) ≡ some ("dep 1" ∷ "otel 1" ∷ [])
unfolding selected_ids resolve_all resolve_package_spec has_id name_and_version matching insert
    contains split_once normalize dash_to_underscore starts_with strip_prefix
selected = refl

selected_named_example : Selects ("dep" ∷ "opentelemetry@1" ∷ []) packages ("dep 1" ∷ "otel 1" ∷ [])
selected_named_example =
    selected_named ("dep" ∷ "opentelemetry@1" ∷ []) packages ("dep 1" ∷ "otel 1" ∷ []) selected

abbrev message : String → String → Message
message id file = record {
  reason = some "compiler-artifact";
  package_id = some id;
  fresh = some false;
  target_name = some id;
  filenames = some (some file ∷ []);
  features = some (some "trace" ∷ []);
  opt_level = some "0";
  debug_assertions = some true;
  overflow_checks = some true;
  test = some false;
}

abbrev lines : Lines
lines = some (message "otel 1" "/t/libotel.rlib") ∷ some (message "dep 1" "/t/libdep.rlib") ∷ []

registry : IsRegistry disk (otel ∷ [])
unfolding IsUnique
registry = ((refl, tt), (refl, tt))

added_artifacts_clear_example :
    IsClearPlan disk ((add_r4_artifacts_from_cargo_json disk packages lines none plan).0)
added_artifacts_clear_example = added_artifacts_clear disk packages lines none plan registry

abbrev site : Site
site = record {
  files = disk;
  cleaned = disk;
  modified = λ p. none;
  registry_enabled = false;
  clean_succeeds = λ args. true;
  packages = packages;
  nodes = nodes;
  cargo_args = "build" ∷ [];
  target_dir = "/t";
  invocation_dir = "/w";
}

abbrev prepass : Prepass
prepass = record { succeeded = true; stdout = lines }

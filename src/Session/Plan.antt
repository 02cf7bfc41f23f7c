-- ===== src/Session/Plan.antt =====
-- cargo-instrument/src/session.rs: the data of the session plan. A hash map is an association list and
-- a hash set a list, in the order of their iteration.
use rust_compile_time_instru.Prelude.{String, Bool, false, Option, none, List, []}
use rust_compile_time_instru.Session.Rustc.{R4Profile}

pub record R4NativeOtelArtifact : Type 0 where
  pub package_id : String
  pub package_version : String
  pub resolved_features : List String
  pub target : Option String
  pub profile : R4Profile
  pub rlib_path : String

pub record TokioArtifact : Type 0 where
  pub package_id : String
  pub package_version : String
  pub resolved_features : List String
  pub target : Option String
  pub profile : R4Profile
  pub rlib_path : String

pub record CargoDepEdge : Type 0 where
  pub binding_name : String
  pub package_id : String
  pub kinds : List (Option String)

pub record SessionPlan : Type 0 where
  pub session_id : String
  pub shim_metadata_v2 : Bool
  pub workspace_package_ids : List String
  pub wrapper_excluded_package_ids : List String
  pub has_otel_shim_provider : Bool
  pub shim_unsafe_packages : List String
  pub host_only_packages : List String
  pub host_only_manifest_dirs : List String
  pub fingerprint : String
  pub manifest_paths : List String
  pub workspace_root : Option String
  pub package_manifest_dirs : List (String × String)
  pub target_reachable_package_ids : List String
  pub r4_otel_package_by_dependency : List (String × String)
  pub r4_required_features_by_dependency : List (String × List String)
  pub r4_native_otel_artifacts : List R4NativeOtelArtifact
  pub tokio_package_by_dependency : List (String × String)
  pub tokio_required_features_by_dependency : List (String × List String)
  pub tokio_artifacts : List TokioArtifact
  pub artifact_metadata_paths : List (String × List String)
  pub package_names_by_id : List (String × String)
  pub package_dependencies : List (String × List CargoDepEdge)

-- The derived `Default`.
abbrev pub empty_plan : SessionPlan
empty_plan = record {
  session_id = "";
  shim_metadata_v2 = false;
  workspace_package_ids = [];
  wrapper_excluded_package_ids = [];
  has_otel_shim_provider = false;
  shim_unsafe_packages = [];
  host_only_packages = [];
  host_only_manifest_dirs = [];
  fingerprint = "";
  manifest_paths = [];
  workspace_root = none;
  package_manifest_dirs = [];
  target_reachable_package_ids = [];
  r4_otel_package_by_dependency = [];
  r4_required_features_by_dependency = [];
  r4_native_otel_artifacts = [];
  tokio_package_by_dependency = [];
  tokio_required_features_by_dependency = [];
  tokio_artifacts = [];
  artifact_metadata_paths = [];
  package_names_by_id = [];
  package_dependencies = [];
}

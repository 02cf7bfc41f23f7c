-- ===== src/Session/Register.antt =====
-- cargo-instrument/src/session.rs: `add_r4_artifacts_from_cargo_json` and
-- `add_tokio_artifacts_from_cargo_json`. Their result is the plan, changed or not, and the error if there is
-- one. A package of Cargo's metadata is what `as_str` gives of its fields.
pub mod Unique
use rust_compile_time_instru.Prelude.{
  String, Bool, true, false, not, ◌&&◌, Option, none, some, List, [], ◌∷◌, ◌++◌, map, str_eq,
  if◌then◌else◌, any,
}
use rust_compile_time_instru.Sets.{insert}
use rust_compile_time_instru.Session.Rustc.{same_profile, same_target}
use rust_compile_time_instru.Session.Plan.{SessionPlan, R4NativeOtelArtifact, TokioArtifact}
use rust_compile_time_instru.Session.{Files, is_tokio_name}
use rust_compile_time_instru.Session.Messages.{
  Lines, Artifact, CaptureError, artifact_missing, ambiguous_artifacts, Gathered, gather,
}

-- `source` is null for a package of the workspace or of a path.
pub record Package : Type 0 where
  pub id : Option String
  pub name : Option String
  pub version : Option String
  pub source_is_null : Bool

abbrev entry : Option String → Option String → List (String × String) → List (String × String)
entry (some id) (some version) versions = (id, version) ∷ versions
entry _ _ versions = versions

-- `versions_by_package`, in which a later package replaces an earlier one.
unfoldable pub versions_from : List (String × String) → List Package → List (String × String)
versions_from versions [] = versions
versions_from versions (p ∷ packages) = versions_from (entry p.id p.version versions) packages

unfoldable pub values : List (String × String) → List String
values [] = []
values (e ∷ es) = insert (values es) (e.1)

abbrev insert_id : Option String → List String → List String
insert_id none ids = ids
insert_id (some id) ids = insert ids id

-- The packages that are called `tokio`, added to those that are wanted already.
unfoldable pub wanted_tokio : List Package → List String → List String
wanted_tokio [] wanted = wanted
wanted_tokio (p ∷ packages) wanted =
    let rest = wanted_tokio packages wanted in
    if is_tokio_name p.name then insert_id p.id rest else rest

abbrev to_r4 : Artifact → R4NativeOtelArtifact
to_r4 a = record {
  package_id = a.package_id;
  package_version = a.package_version;
  resolved_features = a.resolved_features;
  target = a.target;
  profile = a.profile;
  rlib_path = a.rlib_path;
}

abbrev to_tokio : Artifact → TokioArtifact
to_tokio a = record {
  package_id = a.package_id;
  package_version = a.package_version;
  resolved_features = a.resolved_features;
  target = a.target;
  profile = a.profile;
  rlib_path = a.rlib_path;
}

-- Two artifacts that could be taken for each other.
abbrev pub same_r4 : R4NativeOtelArtifact → R4NativeOtelArtifact → Bool
same_r4 a b =
    str_eq a.package_id b.package_id
    && (same_target a.target b.target && same_profile a.profile b.profile)

abbrev pub same_tokio : TokioArtifact → TokioArtifact → Bool
same_tokio a b =
    str_eq a.package_id b.package_id
    && (same_target a.target b.target && same_profile a.profile b.profile)

-- The loop that adds the artifacts: those of the plan when it stops, and the error.
unfoldable pub register :
    {A : Type 0}
    → (A → Bool)
    → (A → A → Bool)
    → (A → CaptureError × CaptureError)
    → List A
    → List A
    → List A × Option CaptureError
register present same errors [] known = (known, none)
register present same errors (a ∷ artifacts) known =
    let rest = register present same errors artifacts (known ++ (a ∷ [])) in
    if not (present a)
    then (known, some ((errors a).0))
    else if any (λ k. same k a) known
    then (known, some ((errors a).1))
    else rest

abbrev pub is_empty : List String → Bool
is_empty [] = true
is_empty (a ∷ ids) = false

abbrev pub start : SessionPlan → Gathered
start plan = record { artifacts = []; metadata_paths = plan.artifact_metadata_paths }

abbrev pub register_r4 :
    Files
    → List Artifact
    → List R4NativeOtelArtifact
    → List R4NativeOtelArtifact × Option CaptureError
register_r4 files artifacts known =
    register (λ a. files.is_file a.rlib_path) same_r4
      (λ a. (artifact_missing a.rlib_path, ambiguous_artifacts a.package_id)) (map to_r4 artifacts)
      known

abbrev pub register_tokio :
    Files → List Artifact → List TokioArtifact → List TokioArtifact × Option CaptureError
register_tokio files artifacts known =
    register (λ a. files.is_file a.rlib_path) same_tokio
      (λ a. (artifact_missing a.rlib_path, ambiguous_artifacts a.package_id))
      (map to_tokio artifacts) known

abbrev pub add_gathered_r4 :
    Files → SessionPlan → Gathered × Option CaptureError → SessionPlan × Option CaptureError
add_gathered_r4 files plan (g, some e) =
    (record plan { artifact_metadata_paths = g.metadata_paths }, some e)
add_gathered_r4 files plan (g, none) =
    let r = register_r4 files g.artifacts plan.r4_native_otel_artifacts in
    (
      record plan { artifact_metadata_paths = g.metadata_paths; r4_native_otel_artifacts = r.0 },
      r.1,
    )

unfoldable pub add_r4_artifacts_from_cargo_json :
    Files → List Package → Lines → Option String → SessionPlan → SessionPlan × Option CaptureError
add_r4_artifacts_from_cargo_json files packages lines target plan =
    let wanted = values plan.r4_otel_package_by_dependency in
    if is_empty wanted
    then (plan, none)
    else add_gathered_r4 files plan
        (gather (versions_from [] packages) wanted target lines (start plan))

abbrev pub add_gathered_tokio :
    Files → SessionPlan → Gathered × Option CaptureError → SessionPlan × Option CaptureError
add_gathered_tokio files plan (g, some e) =
    (record plan { artifact_metadata_paths = g.metadata_paths }, some e)
add_gathered_tokio files plan (g, none) =
    let r = register_tokio files g.artifacts plan.tokio_artifacts in
    (record plan { artifact_metadata_paths = g.metadata_paths; tokio_artifacts = r.0 }, r.1)

unfoldable pub add_tokio_artifacts_from_cargo_json :
    Files → List Package → Lines → Option String → SessionPlan → SessionPlan × Option CaptureError
add_tokio_artifacts_from_cargo_json files packages lines target plan =
    let wanted = wanted_tokio packages (values plan.tokio_package_by_dependency) in
    if is_empty wanted
    then (plan, none)
    else add_gathered_tokio files plan
        (gather (versions_from [] packages) wanted target lines (start plan))

-- ===== src/Cli/Acquire.antt =====
-- cargo-instrument/src/main.rs: `acquire_native_artifacts`, the pre-pass that captures the artifacts and
-- removes what it has compiled without instrumentation. The hooks for fault injection are left out.
use rust_compile_time_instru.Prelude.{
  String, Bool, true, false, not, ◌&&◌, ◌||◌, Option, none, some, List, [], ◌∷◌, ◌++◌, str_eq,
  if◌then◌else◌, any, every, Result, ok, err, ◌>>=◌,
}
use rust_compile_time_instru.Text.{starts_with}
use rust_compile_time_instru.Sets.{contains, insert}
use rust_compile_time_instru.Session.{Files, lookup}
use rust_compile_time_instru.Session.Plan.{SessionPlan, R4NativeOtelArtifact}
use rust_compile_time_instru.Session.Messages.{Message, Lines, texts, is_artifact, CaptureError}
use rust_compile_time_instru.Session.Register.{
  Package, add_r4_artifacts_from_cargo_json, add_tokio_artifacts_from_cargo_json,
}
use rust_compile_time_instru.Cli.{without_message_format}
use rust_compile_time_instru.Cli.Freshness.{
  Node, desired_instrumented_package_ids, retained_artifact_closure,
}
use rust_compile_time_instru.Cli.Invalidate.{CleanError, invalidate_packages}
use rust_compile_time_instru.Cli.Artifacts.{
  JsonError, Times, freshly_compiled_package_ids, uninstrumented_fresh_package_ids,
}

unfoldable pub supports_native_orchestration : List String → Bool
supports_native_orchestration [] = false
supports_native_orchestration (a ∷ args) =
    (str_eq a "build" || str_eq a "run")
    && not (
        any
          (λ x.
            str_eq x "--target"
            || (starts_with x "--target="
                || (str_eq x "--all-targets" || (str_eq x "--tests" || str_eq x "--benches"))))
          (a ∷ args))

abbrev as_build : List String → List String
as_build [] = []
as_build (a ∷ args) = (if str_eq a "run" then "build" else a) ∷ args

abbrev with_target_dir : String → List String → List String
with_target_dir target_dir args =
    if any (λ a. str_eq a "--target-dir" || starts_with a "--target-dir=") args
    then args
    else args ++ ("--target-dir" ∷ target_dir ∷ [])

unfoldable pub prepass_args_of : List String → String → List String
prepass_args_of cargo_args target_dir = with_target_dir target_dir (
    as_build (without_message_format cargo_args)
    ++ ("--message-format=json-render-diagnostics" ∷ []))

abbrev is_shim_name : Option String → Bool
is_shim_name none = false
is_shim_name (some n) = str_eq n "otel-shim"

abbrev is_shim_id : SessionPlan → Option String → Bool
is_shim_id plan none = false
is_shim_id plan (some id) = is_shim_name (lookup plan.package_names_by_id id)

unfoldable pub shim_messages : SessionPlan → Lines → List Message
shim_messages plan [] = []
shim_messages plan (none ∷ lines) = shim_messages plan lines
shim_messages plan (some m ∷ lines) =
    let rest = shim_messages plan lines in
    if is_artifact m.reason && is_shim_id plan m.package_id then m ∷ rest else rest

abbrev has_metadata_v2 : Option (List (Option String)) → Bool
has_metadata_v2 none = false
has_metadata_v2 (some features) = contains (texts features) "metadata-v2"

abbrev has_messages : List Message → Bool
has_messages [] = false
has_messages (m ∷ more) = true

unfoldable pub is_shim_v2 : List Message → Bool
is_shim_v2 messages = has_messages messages && every (λ m. has_metadata_v2 m.features) messages

-- The end of the pre-pass and its output.
pub record Prepass : Type 0 where
  pub succeeded : Bool
  pub stdout : Lines

abbrev or_error : Option CaptureError → Option CaptureError → Bool
or_error none none = false
or_error _ _ = true

-- The plan with what the pre-pass has shown, and whether there is a `capture_error`.
unfoldable pub capture : Files → List Package → Prepass → SessionPlan → SessionPlan × Bool
capture files packages pre plan =
    let shim = record plan { shim_metadata_v2 = is_shim_v2 (shim_messages plan pre.stdout) } in
    let r4 = add_r4_artifacts_from_cargo_json files packages pre.stdout none shim in
    let tokio = add_tokio_artifacts_from_cargo_json files packages pre.stdout none (r4.0) in
    if pre.succeeded then (tokio.0, or_error r4.1 tokio.1) else (plan, true)

pub data Tier2Reason : Type 0 where
  malformed_output : JsonError → Tier2Reason
  prepass_failed : Tier2Reason
  closure_overlaps : Tier2Reason
  no_eligible_artifact : Tier2Reason
  artifact_removed : (rlib_path : String) → Tier2Reason

pub data NativeAcquisition : Type 0 where
  available : NativeAcquisition
  tier_2_only : Tier2Reason → NativeAcquisition

-- The plan that is left, the packages that were to be invalidated, in the order of the calls, and the
-- result.
pub record Acquired : Type 0 where
  pub plan : SessionPlan
  pub invalidated : List (List String)
  pub result : Result NativeAcquisition CleanError

unfoldable pub intersection : List String → List String → List String
intersection [] set = []
intersection (a ∷ ids) set =
    let rest = intersection ids set in if contains set a then a ∷ rest else rest

unfoldable pub difference : List String → List String → List String
difference [] set = []
difference (a ∷ ids) set =
    let rest = difference ids set in if contains set a then rest else a ∷ rest

unfoldable pub union : List String → List String → List String
union [] set = set
union (a ∷ ids) set = insert (union ids set) a

abbrev pub is_empty : List String → Bool
is_empty [] = true
is_empty (a ∷ ids) = false

abbrev pub no_artifacts : List R4NativeOtelArtifact → Bool
no_artifacts [] = true
no_artifacts (a ∷ artifacts) = false

unfoldable pub missing_artifact : Files → List R4NativeOtelArtifact → Option String
missing_artifact files [] = none
missing_artifact files (a ∷ artifacts) =
    let rest = missing_artifact files artifacts in
    if files.is_file a.rlib_path then rest else some a.rlib_path

-- What the acquisition is run in; `cleaned` are the files behind `cargo clean`.
pub record Site : Type 0 where
  pub files : Files
  pub cleaned : Files
  pub modified : Times
  pub registry_enabled : Bool
  pub clean_succeeds : List String → Bool
  pub packages : List Package
  pub nodes : List Node
  pub cargo_args : List String
  pub target_dir : String
  pub invocation_dir : String

module _ (w : Site) where
  abbrev pub invalidate : List String → List String → Result (List (List String)) CleanError
  invalidate ids retained =
      invalidate_packages w.clean_succeeds ids retained w.packages w.cargo_args w.target_dir

  -- `invalidate_packages(..)?` and the return of a reason.
  unfoldable pub give_up : SessionPlan → List String → List String → Tier2Reason → Acquired
  give_up plan ids retained reason = record {
    plan = plan;
    invalidated = ids ∷ [];
    result = invalidate ids retained >>= (λ runs. ok (tier_2_only reason));
  }

  abbrev pub failure_reason : Result (List String) JsonError → Tier2Reason
  failure_reason (err e) = malformed_output e
  failure_reason (ok ids) = prepass_failed

  abbrev pub forget : SessionPlan → SessionPlan
  forget plan = record plan { r4_native_otel_artifacts = [] }

  abbrev pub forget_all : SessionPlan → SessionPlan
  forget_all plan = record plan {
    shim_metadata_v2 = false;
    r4_native_otel_artifacts = [];
    tokio_artifacts = [];
  }

  -- Behind the last invalidation: the captured artifacts have to be there still.
  unfoldable pub recheck :
      SessionPlan
      → (desired clean_ids : List String) → Result (List (List String)) CleanError
      → Acquired
  recheck plan desired clean_ids (err e) = record {
    plan = plan;
    invalidated = clean_ids ∷ [];
    result = err e;
  }
  recheck plan desired clean_ids (ok runs) =
      elim (missing_artifact w.cleaned plan.r4_native_otel_artifacts) [
        | none ↦ record { plan = plan; invalidated = clean_ids ∷ []; result = ok available }
        | some path ↦ record {
          plan = forget plan;
          invalidated = clean_ids ∷ desired ∷ [];
          result = invalidate desired [] >>= (λ more. ok (tier_2_only (artifact_removed path)));
        }
      ]

  -- The part of a complete pre-pass, of which `compiled` are the packages that it has compiled.
  unfoldable pub select :
      Prepass → SessionPlan → (desired retained compiled : List String) → Acquired
  select pre plan desired retained compiled =
      let fresh = uninstrumented_fresh_package_ids w.modified w.invocation_dir desired pre.stdout in
      let dirty = union (intersection desired compiled) fresh in
      let clean_ids = difference dirty retained in
      if not (is_empty (intersection desired retained))
      then give_up (forget plan) desired [] closure_overlaps
      else if no_artifacts plan.r4_native_otel_artifacts
      then give_up plan dirty [] no_eligible_artifact
      else recheck plan desired clean_ids (invalidate clean_ids retained)

  abbrev pub is_err : Result (List String) JsonError → Bool
  is_err (ok ids) = false
  is_err (err e) = true

  abbrev pub compiled_of : Result (List String) JsonError → List String
  compiled_of (ok ids) = ids
  compiled_of (err e) = []

  abbrev pub selected :
      Prepass → SessionPlan → List String → List String → Option (List String) → Option Acquired
  selected pre plan desired compiled none = none
  selected pre plan desired compiled (some retained) =
      some (select pre plan desired retained compiled)

  -- `none` is a search for the closure that is out of fuel.
  unfoldable pub acquire_native_artifacts : Prepass → SessionPlan → Option Acquired
  acquire_native_artifacts pre plan =
      let captured = capture w.files w.packages pre plan in
      let compiled = freshly_compiled_package_ids pre.stdout in
      let desired = desired_instrumented_package_ids w.registry_enabled (captured.0) w.packages in
      if captured.1 || is_err compiled
      then some (give_up (forget_all (captured.0)) desired [] (failure_reason compiled))
      else selected pre (captured.0) desired (compiled_of compiled)
          (retained_artifact_closure (captured.0) w.nodes)

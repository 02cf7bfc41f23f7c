-- ===== src/Wrapper/Choice.antt =====
-- cargo-instrument/src/wrapper.rs: what `run_wrapper` makes of the analysis: whether spawn sites are
-- left, and which emitter writes the edits.
use rust_compile_time_instru.Prelude.{
  String, Bool, true, false, not, ◌&&◌, ◌||◌, Option, none, some, List, [], if◌then◌else◌, Result,
  ok,
}
use rust_compile_time_instru.Bytes.{codes}
use rust_compile_time_instru.Candidate.{DiscoveryReport, UnsafePolicy, forbidden}
use rust_compile_time_instru.Transform.Emit.Native
use rust_compile_time_instru.Transform.Emit.Native.{NativeOtelEmitter}
use rust_compile_time_instru.Transform.Emit.Trampoline
use rust_compile_time_instru.Transform.Emit.Trampoline.{TrampolineEmitter, with_metadata}
use rust_compile_time_instru.Transform.Emit.Boxed.{BoxedEmitter, sentinel, native, trampoline}
use rust_compile_time_instru.Discovery.{CrateRole, application}
use rust_compile_time_instru.Session.Plan.{SessionPlan, R4NativeOtelArtifact}
use rust_compile_time_instru.Session.{
  Files, unit_has_real_tokio_binding, tokio_artifact_for, found_artifact,
}
use rust_compile_time_instru.Session.Otel.{OtelError, r4_native_otel_artifact_for}
use rust_compile_time_instru.Session.Gates.{is_shim_unsafe}

-- Without the proof that `tokio` is Tokio the spawn sites are dropped.
unfoldable pub suppress_spawns :
    Files → SessionPlan → String → List String → DiscoveryReport → DiscoveryReport
suppress_spawns files plan resolved args report =
    if not (unit_has_real_tokio_binding files plan resolved args)
      || not (found_artifact (tokio_artifact_for files plan resolved args))
    then record report { spawn_sites = [] }
    else report

abbrev rlib_of : Result (Option R4NativeOtelArtifact) OtelError → Option String
rlib_of (ok (some a)) = some a.rlib_path
rlib_of _ = none

unfoldable pub r4_native_otel_rlib : Files → SessionPlan → String → List String → Option String
r4_native_otel_rlib files plan resolved args =
    rlib_of (r4_native_otel_artifact_for files plan resolved args)

-- What the choice depends on, beside the plan and the report.
pub record Circumstances : Type 0 where
  pub crate_name : String
  pub edition : Option String
  pub role : CrateRole
  pub has_otel : Bool
  pub has_otel_shim : Bool
  pub preflight_failed : Bool
  pub use_sentinel : Bool
  pub native_otel_enforced : Bool
  pub dependency_only : Bool
  pub rlib : Option String

abbrev pub is_forbidden : UnsafePolicy → Bool
is_forbidden forbidden = true
is_forbidden _ = false

abbrev pub is_application : CrateRole → Bool
is_application application = true
is_application _ = false

abbrev pub is_present : Option String → Bool
is_present none = false
is_present (some a) = true

unfoldable pub tier_2 : SessionPlan → DiscoveryReport → Circumstances → BoxedEmitter
tier_2 plan report c = trampoline (
    with_metadata (Trampoline.new (codes c.crate_name) c.edition report.unsafe_policy)
      (c.dependency_only && plan.shim_metadata_v2))

unfoldable pub application_emitter :
    SessionPlan → DiscoveryReport → Circumstances → Option BoxedEmitter
application_emitter plan report c =
    if c.has_otel && is_present c.rlib
    then some (
        native (
          if c.dependency_only
          then Native.for_dependency (codes c.crate_name)
          else Native.new (codes c.crate_name)))
    else if c.native_otel_enforced
    then none
    else if c.has_otel_shim
    then some (tier_2 plan report c)
    else some sentinel

unfoldable pub dependency_emitter :
    SessionPlan → DiscoveryReport → Circumstances → Option BoxedEmitter
dependency_emitter plan report c =
    if is_present c.rlib
    then some (native (Native.for_dependency (codes c.crate_name)))
    else if not plan.has_otel_shim_provider
    then none
    else if is_shim_unsafe plan c.crate_name
    then none
    else some (tier_2 plan report c)

unfoldable pub choose_emitter : SessionPlan → DiscoveryReport → Circumstances → Option BoxedEmitter
choose_emitter plan report c =
    if c.preflight_failed
      || (report.has_colliding_symbols || (report.is_no_std || is_forbidden report.unsafe_policy))
    then none
    else if c.use_sentinel
    then some sentinel
    else if is_application c.role
    then application_emitter plan report c
    else dependency_emitter plan report c

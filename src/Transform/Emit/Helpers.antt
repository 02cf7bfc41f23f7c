-- ===== src/Transform/Emit/Helpers.antt =====
-- cargo-instrument/src/transform.rs: planning and transforming with an emitter of the file's own.
use rust_compile_time_instru.Prelude.{Option, Result, String}
use rust_compile_time_instru.Prelude.{List}
use rust_compile_time_instru.Bytes.{Bytes}
use rust_compile_time_instru.Candidate.{Candidate, SpawnSite, UnsafePolicy}
use rust_compile_time_instru.Transform.{TransformError, TransformationPlan}
use rust_compile_time_instru.Transform.Build.{build_with_emitter}
use rust_compile_time_instru.Transform.Pipeline.{
  transform_with_spawns, transform_source_str_with_emitter,
}
use rust_compile_time_instru.Transform.Emit.{sentinel_emitter}
use rust_compile_time_instru.Transform.Emit.Native
use rust_compile_time_instru.Transform.Emit.Native.{native_emitter}
use rust_compile_time_instru.Transform.Emit.Trampoline
use rust_compile_time_instru.Transform.Emit.Trampoline.{trampoline_emitter}

unfoldable pub build : Bytes → List Candidate → Option (Result TransformationPlan TransformError)
build source cs = build_with_emitter source cs sentinel_emitter

unfoldable pub build_with_native_otel :
    Bytes → Bytes → List Candidate → Option (Result TransformationPlan TransformError)
build_with_native_otel source crate_name cs =
    build_with_emitter source cs (native_emitter (Native.new crate_name))

unfoldable pub transform_source_str : Bytes → List Candidate → Option (Result Bytes TransformError)
transform_source_str source cs = transform_source_str_with_emitter source cs sentinel_emitter

unfoldable pub transform_source_str_with_native_otel :
    Bytes → Bytes → List Candidate → Option (Result Bytes TransformError)
transform_source_str_with_native_otel source crate_name cs =
    transform_source_str_with_emitter source cs (native_emitter (Native.new crate_name))

unfoldable pub transform_source_str_with_native_otel_and_spawns :
    Bytes → Bytes → List Candidate → List SpawnSite → Option (Result Bytes TransformError)
transform_source_str_with_native_otel_and_spawns source crate_name cs ss =
    transform_with_spawns source cs ss (native_emitter (Native.new crate_name))

unfoldable pub transform_source_str_with_trampoline :
    (Bytes → Option Bytes)
    → (Bytes → Bytes)
    → Bytes
    → Bytes
    → Option String
    → UnsafePolicy
    → List Candidate
    → Option (Result Bytes TransformError)
transform_source_str_with_trampoline read_to_string debug source crate_name edition policy cs =
    transform_source_str_with_emitter source cs
      (trampoline_emitter read_to_string debug (Trampoline.new crate_name edition policy))

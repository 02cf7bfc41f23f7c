-- ===== src/Transform/Emit/Native.antt =====
-- `NativeOtelEmitter` of cargo-instrument/src/transform.rs.
use rust_compile_time_instru.Prelude.{Bool, true, false, not, ◌&&◌, List, [], ◌∷◌, if◌then◌else◌}
use rust_compile_time_instru.Bytes.{Bytes, codes}
use rust_compile_time_instru.Semantics.{dependency_async_outcome}
use rust_compile_time_instru.Candidate.{Candidate}
use rust_compile_time_instru.Transform.{Emitter}
use rust_compile_time_instru.Transform.Emit.{lit, format, anchor_line}

pub record NativeOtelEmitter : Type 0 where
  pub crate_name : Bytes
  pub dependency_lifecycle : Bool

unfoldable pub new : Bytes → NativeOtelEmitter
new crate_name = record { crate_name = crate_name; dependency_lifecycle = false }

unfoldable pub for_dependency : Bytes → NativeOtelEmitter
for_dependency crate_name = record { crate_name = crate_name; dependency_lifecycle = true }

lifecycle_pieces : Bytes → List Bytes
lifecycle_pieces nl =
    nl
    ∷ lit "    struct __OtelLifecycle { cx: opentelemetry::Context, completed: bool }"
    ∷ nl
    ∷ lit "    impl Drop for __OtelLifecycle {"
    ∷ nl
    ∷ lit "        fn drop(&mut self) {"
    ∷ nl
    ∷ lit
        "            let outcome = if self.completed { \"completed\" } else if std::thread::panicking() { \"unwound\" } else { \"cancelled\" };"
    ∷ nl
    ∷ lit "            let span = opentelemetry::trace::TraceContextExt::span(&self.cx);"
    ∷ nl
    ∷ lit "            span.set_attribute(opentelemetry::KeyValue::new(\""
    ∷ codes dependency_async_outcome
    ∷ lit "\", outcome));"
    ∷ nl
    ∷ lit "            span.end();"
    ∷ nl
    ∷ lit "        }"
    ∷ nl
    ∷ lit "    }"
    ∷ nl
    ∷ lit
        "    let mut __otel_lifecycle = __OtelLifecycle { cx: __otel_cx.clone(), completed: false };"
    ∷ []

unfoldable pub lifecycle_prefix : NativeOtelEmitter → Bytes → Bytes
unfolding lifecycle_pieces
lifecycle_prefix self nl =
    if not self.dependency_lifecycle then [] else format (lifecycle_pieces nl)

-- The lines that all four forms of the prefix have behind the anchor line.
span_pieces : Bytes → Bytes → Bytes → List Bytes → List Bytes
span_pieces nl name crate_name more =
    nl
    ∷ lit "    let __otel_tracer = opentelemetry::global::tracer(\""
    ∷ crate_name
    ∷ lit "\");"
    ∷ nl
    ∷ lit "    let __otel_span = opentelemetry::trace::Tracer::span_builder(&__otel_tracer, \""
    ∷ name
    ∷ lit "\")"
    ∷ nl
    ∷ lit "        .with_kind(opentelemetry::trace::SpanKind::Internal)"
    ∷ nl
    ∷ lit "        .start(&__otel_tracer);"
    ∷ nl
    ∷ lit
        "    let __otel_cx = <opentelemetry::Context as opentelemetry::trace::TraceContextExt>::current_with_span(__otel_span);"
    ∷ more

-- A result is inspected in a closure unless a reference would have to leave it.
abbrev pub wraps_result : Candidate → Bool
wraps_result c = c.returns_result && not c.returns_reference_or_lifetime

-- What the four forms go on with.
body_pieces : NativeOtelEmitter → Candidate → Bytes → List Bytes
body_pieces self c nl =
    if c.is_async
    then (if c.returns_result
        then lifecycle_prefix self nl
          ∷ nl
          ∷ lit
              "    let __otel_res: Result<_, _> = opentelemetry::trace::FutureExt::with_context(async move {"
          ∷ []
        else lifecycle_prefix self nl
          ∷ nl
          ∷ lit "    "
          ∷ (if self.dependency_lifecycle then lit "let __otel_output = " else lit "")
          ∷ lit "opentelemetry::trace::FutureExt::with_context(async move {"
          ∷ [])
    else if wraps_result c
    then nl
      ∷ lit "    let __otel_guard = __otel_cx.clone().attach();"
      ∷ nl
      ∷ lit "    #[allow(clippy::redundant_closure_call)]"
      ∷ nl
      ∷ lit "    let __otel_res: Result<_, _> = (|| {"
      ∷ []
    else nl ∷ lit "    let __otel_guard = __otel_cx.attach();" ∷ []

unfoldable pub prefix_pieces : NativeOtelEmitter → Candidate → Bytes → List Bytes
unfolding span_pieces body_pieces
prefix_pieces self c nl = span_pieces nl c.function_name self.crate_name (body_pieces self c nl)

unfoldable pub emit_body_prefix : NativeOtelEmitter → Candidate → Bytes → Bytes
emit_body_prefix self c nl = format (anchor_line nl c.function_name (prefix_pieces self c nl))

-- The lines that set an error status.
status_pieces : Bytes → List Bytes → List Bytes
status_pieces nl more =
    nl
    ∷ lit "    if __otel_res.is_err() {"
    ∷ nl
    ∷ lit "        opentelemetry::trace::TraceContextExt::span(&__otel_cx)"
    ∷ nl
    ∷ lit "            .set_status(opentelemetry::trace::Status::error(\"\"));"
    ∷ nl
    ∷ lit "    }"
    ∷ more

completed_text : NativeOtelEmitter → Bytes → Bytes
completed_text self nl =
    if self.dependency_lifecycle
    then format (nl ∷ lit "    __otel_lifecycle.completed = true;" ∷ [])
    else []

unfoldable pub emit_body_suffix : NativeOtelEmitter → Candidate → Bytes → Bytes
unfolding status_pieces completed_text
emit_body_suffix self c nl =
    if c.is_async
    then (if c.returns_result
        then format (
            nl
            ∷ lit "    }, __otel_cx.clone()).await;"
            ∷ status_pieces nl (completed_text self nl ∷ nl ∷ lit "    __otel_res" ∷ nl ∷ []))
        else if self.dependency_lifecycle
        then format (
            nl
            ∷ lit "    }, __otel_cx).await;"
            ∷ completed_text self nl
            ∷ nl
            ∷ lit "    __otel_output"
            ∷ nl
            ∷ [])
        else format (nl ∷ lit "    }, __otel_cx).await" ∷ nl ∷ []))
    else if wraps_result c
    then format (nl ∷ lit "    })();" ∷ status_pieces nl (nl ∷ lit "    __otel_res" ∷ nl ∷ []))
    else []

abbrev pub native_emitter : NativeOtelEmitter → Emitter
native_emitter self = record {
  emit_body_prefix = emit_body_prefix self;
  emit_body_suffix = emit_body_suffix self;
  handles_async = true;
  handles_tokio_spawn = true;
}

-- ===== src/Driver/Body.antt =====
-- tools/cargo-instrument-rust-driver/src/main.rs: the body that the driver writes in place of a
-- function's own. `debug` is what `{:?}` prints of a text.
use rust_compile_time_instru.Prelude.{
  String, ◌≡◌, refl, sym, ap, ◌∙◌, Bool, true, false, Option, none, some, List, [], ◌∷◌, ◌++◌, ◌==◌,
  if◌then◌else◌, ok, err,
}
use rust_compile_time_instru.Bytes.{Bytes, codes, strip_prefix, trim_start, contains}
use rust_compile_time_instru.Bytes.Slices.{contains_middle}
use rust_compile_time_instru.Transform.Emit.{lit, format}
use rust_compile_time_instru.Semantics.{
  InstrumentationPlan, ExecutionLifecycle, sync_scoped_context, async_future_context, FunctionFacts,
  already_instrumented, plan, p23_marker,
}
use rust_compile_time_instru.Semantics.Policy.{plan_exact}

abbrev newline : Bytes
newline = 10 ∷ []

-- `s.trim_end()`: a byte is dropped when only white space is left from it on.
unfoldable pub trim_end : Bytes → Bytes
trim_end [] = []
trim_end (b ∷ s) = let rest = trim_end s in elim (trim_start (b ∷ s)) [ [] ↦ [] | c ∷ t ↦ b ∷ rest ]

abbrev trim : Bytes → Bytes
trim s = trim_end (trim_start s)

-- `s.strip_suffix('}')`
unfoldable pub strip_close : Bytes → Option Bytes
strip_close [] = none
strip_close (b ∷ []) = if b == b'}' then some [] else none
strip_close (b ∷ c ∷ s) = elim (strip_close (c ∷ s)) [ none ↦ none | some t ↦ some (b ∷ t) ]

abbrev between_braces : Bytes → Option Bytes
between_braces s = elim (strip_prefix s (lit "{")) [ none ↦ none | some t ↦ strip_close t ]

-- The statements of a body, without its braces where it has both.
unfoldable pub inner_of : Bytes → Bytes
inner_of original = elim (between_braces (trim original)) [ none ↦ trim original | some s ↦ trim s ]

module _ (debug : String → Bytes) where
  -- The prelude behind its marker, and what follows it.
  prelude_pieces : InstrumentationPlan → List Bytes → List Bytes
  prelude_pieces p more =
      newline
      ∷ lit "    let __cargo_instrument_rust_tracer = opentelemetry::global::tracer("
      ∷ debug p.span.tracer_scope
      ∷ lit ");"
      ∷ newline
      ∷ lit
          "    let __cargo_instrument_rust_span = opentelemetry::trace::Tracer::start(&__cargo_instrument_rust_tracer, "
      ∷ debug p.span.span_name
      ∷ lit ");"
      ∷ newline
      ∷ lit
          "    let __cargo_instrument_rust_cx = <opentelemetry::Context as opentelemetry::trace::TraceContextExt>::current_with_span(__cargo_instrument_rust_span);"
      ∷ newline
      ∷ more

  -- The status of a captured result, and the result itself.
  status_pieces : List Bytes
  status_pieces =
      newline
      ∷ lit "    if __cargo_instrument_rust_res.is_err() {"
      ∷ newline
      ∷ lit "        opentelemetry::trace::TraceContextExt::span(&__cargo_instrument_rust_cx)"
      ∷ newline
      ∷ lit "            .set_status(opentelemetry::trace::Status::error(\"\"));"
      ∷ newline
      ∷ lit "    }"
      ∷ newline
      ∷ lit "    __cargo_instrument_rust_res"
      ∷ newline
      ∷ lit "}"
      ∷ []

  sync_pieces : Bool → Bytes → List Bytes
  sync_pieces true inner =
      lit "    let _cargo_instrument_rust_guard = __cargo_instrument_rust_cx.clone().attach();"
      ∷ newline
      ∷ lit "    #[allow(clippy::redundant_closure_call)]"
      ∷ newline
      ∷ lit "    let __cargo_instrument_rust_res: Result<_, _> = (|| {"
      ∷ newline
      ∷ lit "        "
      ∷ inner
      ∷ newline
      ∷ lit "    })();"
      ∷ status_pieces
  sync_pieces false inner =
      lit "    let _cargo_instrument_rust_guard = __cargo_instrument_rust_cx.attach();"
      ∷ newline
      ∷ lit "    "
      ∷ inner
      ∷ newline
      ∷ lit "}"
      ∷ []

  async_pieces : Bool → Bytes → List Bytes
  async_pieces true inner =
      lit
        "    let __cargo_instrument_rust_res: Result<_, _> = opentelemetry::trace::FutureExt::with_context(async move {"
      ∷ newline
      ∷ lit "        "
      ∷ inner
      ∷ newline
      ∷ lit "    }, __cargo_instrument_rust_cx.clone()).await;"
      ∷ status_pieces
  async_pieces false inner =
      lit "    opentelemetry::trace::FutureExt::with_context(async move {"
      ∷ newline
      ∷ lit "        "
      ∷ inner
      ∷ newline
      ∷ lit "    }, __cargo_instrument_rust_cx).await"
      ∷ newline
      ∷ lit "}"
      ∷ []

  lifecycle_body : ExecutionLifecycle → Bool → Bytes → List Bytes
  lifecycle_body sync_scoped_context captures inner = sync_pieces captures inner
  lifecycle_body async_future_context captures inner = async_pieces captures inner

  pub instrument_body : Bytes → InstrumentationPlan → Bytes
  instrument_body original p =
      (lit "{" ++ (newline ++ lit "    "))
      ++ (codes p.marker
          ++ format (
              prelude_pieces p
                (lifecycle_body p.lifecycle p.captures_result_status (inner_of original))))

  body_is_marked :
      (original : Bytes) (p : InstrumentationPlan)
      → contains (instrument_body original p) (codes p.marker) ≡ true
  unfolding instrument_body
  body_is_marked original p =
      contains_middle (lit "{" ++ (newline ++ lit "    ")) (codes p.marker) _

-- A body that the driver has rewritten by a plan of the policy is refused as already instrumented
-- when it is looked at again, where the function is first-party and counts as instrumented exactly
-- when its body contains the marker, whatever else is then found of it.
pub edited_once :
    (debug : String → Bytes) (original : Bytes) (f g : FunctionFacts) (p : InstrumentationPlan)
    → plan f ≡ ok p
    → g.first_party ≡ true
    → g.already_instrumented ≡ contains (instrument_body debug original p) (codes p23_marker)
    → plan g ≡ err already_instrumented
unfolding plan
edited_once debug original f g p planned owned seen =
    let e = (plan_exact f p).0 planned in
    let m : p.marker ≡ p23_marker = ap (λ q. q.marker) (e.1) in
    let c : contains (instrument_body debug original p) (codes p23_marker) ≡ true =
      ap (λ k. contains (instrument_body debug original p) (codes k)) (sym m)
      ∙ body_is_marked debug original p in
    rw (owned, seen ∙ c) refl

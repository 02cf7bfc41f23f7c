-- ===== src/Semantics/Policy.antt =====
-- What `EligibilityPolicy::plan` accepts and refuses, against a description with no order in it.
use rust_compile_time_instru.Prelude.{
  ◌≡◌, ◌∙◌, ap, sym, ◌≢◌, ◌↔◌, true, false, ◌&&◌, ok, err, arith, if◌then◌else◌,
}
use rust_compile_time_instru.Semantics.{
  FunctionFacts, InstrumentationPlan, Ineligibility, plan, p23_marker, nested_local_function,
  default_trait_method, async_future_context, sync_scoped_context, not_first_party,
  already_instrumented, explicitly_instrumented, nested_local_function_excluded,
  default_trait_method_excluded, direct_self_recursion_excluded, missing_opentelemetry_dependency,
  unsupported_function_shape,
}

-- What the policy asks of a function, as one conjunction.
pub record IsEligible (f : FunctionFacts) : Type 0 where
  pub owned : f.first_party ≡ true
  pub untouched : f.already_instrumented ≡ false
  pub unmarked : f.has_explicit_instrumentation ≡ false
  pub not_nested : f.shape ≢ nested_local_function
  pub not_default : f.shape ≢ default_trait_method
  pub not_recursive : f.is_directly_recursive ≡ false
  pub linked : f.has_opentelemetry ≡ true

abbrev pub expected : FunctionFacts → InstrumentationPlan
expected f = record {
  marker = p23_marker;
  span = record { tracer_scope = f.crate_name; span_name = f.function_name };
  lifecycle = if f.is_async then async_future_context else sync_scoped_context;
  captures_result_status = f.returns_result && f.can_capture_result_status;
}

plan_complete : (f : FunctionFacts) → IsEligible f → plan f ≡ ok (expected f)
unfolding plan
plan_complete f e = ground arith

plan_sound : (f : FunctionFacts) (p : InstrumentationPlan) → plan f ≡ ok p → IsEligible f
unfolding plan
plan_sound f p h = ground arith

plan_value : (f : FunctionFacts) (p : InstrumentationPlan) → plan f ≡ ok p → p ≡ expected f
plan_value f p h = cc (plan_complete f (plan_sound f p h))

-- A function is planned exactly when it is owned by the user, carries no generated or explicit
-- instrumentation, is neither nested nor a default trait method, does not call itself directly and
-- has OpenTelemetry linked; and then the plan is the one that its names, its asyncness and its
-- capturable result determine.
pub plan_exact :
    (f : FunctionFacts) (p : InstrumentationPlan)
    → (plan f ≡ ok p) ↔ (IsEligible f × (p ≡ expected f))
plan_exact f p =
    (λ h. (plan_sound f p h, plan_value f p h), λ e. plan_complete f (e.0) ∙ ap ok (sym e.1))

-- What a refusal says of the function: that its own reason holds, and none that comes before it.
abbrev pub Explains : Ineligibility → FunctionFacts → Type 0
Explains not_first_party f = f.first_party ≡ false
Explains already_instrumented f = (f.first_party ≡ true) × (f.already_instrumented ≡ true)
Explains explicitly_instrumented f =
    (f.first_party ≡ true)
    × (f.already_instrumented ≡ false)
    × (f.has_explicit_instrumentation ≡ true)
Explains nested_local_function_excluded f =
    (f.first_party ≡ true)
    × (f.already_instrumented ≡ false)
    × (f.has_explicit_instrumentation ≡ false)
    × (f.shape ≡ nested_local_function)
Explains default_trait_method_excluded f =
    (f.first_party ≡ true)
    × (f.already_instrumented ≡ false)
    × (f.has_explicit_instrumentation ≡ false)
    × (f.shape ≡ default_trait_method)
Explains direct_self_recursion_excluded f =
    (f.first_party ≡ true)
    × (f.already_instrumented ≡ false)
    × (f.has_explicit_instrumentation ≡ false)
    × (f.shape ≢ nested_local_function)
    × (f.shape ≢ default_trait_method)
    × (f.is_directly_recursive ≡ true)
Explains unsupported_function_shape f = ⊥
Explains missing_opentelemetry_dependency f =
    (f.first_party ≡ true)
    × (f.already_instrumented ≡ false)
    × (f.has_explicit_instrumentation ≡ false)
    × (f.shape ≢ nested_local_function)
    × (f.shape ≢ default_trait_method)
    × (f.is_directly_recursive ≡ false)
    × (f.has_opentelemetry ≡ false)

refused : (f : FunctionFacts) (e : Ineligibility) → plan f ≡ err e → Explains e f
unfolding plan
refused f not_first_party h = ground arith
refused f already_instrumented h = ground arith
refused f explicitly_instrumented h = ground arith
refused f nested_local_function_excluded h = ground arith
refused f default_trait_method_excluded h = ground arith
refused f direct_self_recursion_excluded h = ground arith
refused f unsupported_function_shape h = ground arith
refused f missing_opentelemetry_dependency h = ground arith

explained : (f : FunctionFacts) (e : Ineligibility) → Explains e f → plan f ≡ err e
unfolding plan
explained f not_first_party h = ground arith
explained f already_instrumented h = ground arith
explained f explicitly_instrumented h = ground arith
explained f nested_local_function_excluded h = ground arith
explained f default_trait_method_excluded h = ground arith
explained f direct_self_recursion_excluded h = ground arith
explained f unsupported_function_shape h = absurd h
explained f missing_opentelemetry_dependency h = ground arith

-- A function is refused for a reason exactly when the reason holds of it and none that comes before it
-- does, in the order: not owned by the user, instrumented already, instrumented explicitly, nested, a
-- default trait method, directly recursive, without OpenTelemetry. `UnsupportedFunctionShape` is never
-- the reason.
pub plan_refusal : (f : FunctionFacts) (e : Ineligibility) → (plan f ≡ err e) ↔ Explains e f
plan_refusal f e = (refused f e, explained f e)

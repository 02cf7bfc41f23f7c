-- ===== src/Semantics.antt =====
-- instrument-semantics/src/lib.rs: the eligibility policy that every frontend shares.
pub mod Policy
use rust_compile_time_instru.Prelude.{
  String, Bool, true, false, not, ◌&&◌, ◌||◌, Result, ok, err, str_eq, if◌then◌else◌,
}

abbrev pub p23_marker : String
p23_marker = "/* __cargo_instrument_rust:p23 */"

abbrev pub dependency_async_outcome : String
dependency_async_outcome = "cargo.instrumentation.async.outcome"

-- The `matches!` over the pair, row by row.
pub is_polling_adapter_method : String → String → Bool
is_polling_adapter_method trait_name method =
    (str_eq trait_name "Future" && str_eq method "poll")
    || ((str_eq trait_name "Stream" && str_eq method "poll_next")
        || (str_eq trait_name "Sink"
            && (str_eq method "poll_ready"
                || (str_eq method "start_send"
                    || (str_eq method "poll_flush" || str_eq method "poll_close")))))

pub data FunctionShape : Type 0 where
  free_function : FunctionShape
  inherent_method : FunctionShape
  trait_impl_method : FunctionShape
  default_trait_method : FunctionShape
  nested_local_function : FunctionShape

pub record FunctionFacts : Type 0 where
  pub function_name : String
  pub crate_name : String
  pub shape : FunctionShape
  pub is_async : Bool
  pub returns_result : Bool
  pub can_capture_result_status : Bool
  pub is_directly_recursive : Bool
  pub first_party : Bool
  pub already_instrumented : Bool
  pub has_explicit_instrumentation : Bool
  pub has_opentelemetry : Bool

pub data Ineligibility : Type 0 where
  not_first_party : Ineligibility
  already_instrumented : Ineligibility
  explicitly_instrumented : Ineligibility
  nested_local_function_excluded : Ineligibility
  direct_self_recursion_excluded : Ineligibility
  default_trait_method_excluded : Ineligibility
  unsupported_function_shape : Ineligibility
  missing_opentelemetry_dependency : Ineligibility

pub record SpanSemantics : Type 0 where
  pub tracer_scope : String
  pub span_name : String

pub data ExecutionLifecycle : Type 0 where
  sync_scoped_context : ExecutionLifecycle
  async_future_context : ExecutionLifecycle

pub record InstrumentationPlan : Type 0 where
  pub marker : String
  pub span : SpanSemantics
  pub lifecycle : ExecutionLifecycle
  pub captures_result_status : Bool

abbrev pub is_nested : FunctionShape → Bool
is_nested nested_local_function = true
is_nested _ = false

abbrev pub is_default_trait : FunctionShape → Bool
is_default_trait default_trait_method = true
is_default_trait _ = false

-- `EligibilityPolicy::plan`: the early returns in their order, then the plan.
unfoldable pub plan : FunctionFacts → Result InstrumentationPlan Ineligibility
plan facts =
    if not facts.first_party
    then err not_first_party
    else if facts.already_instrumented
    then err already_instrumented
    else if facts.has_explicit_instrumentation
    then err explicitly_instrumented
    else if is_nested facts.shape
    then err nested_local_function_excluded
    else if is_default_trait facts.shape
    then err default_trait_method_excluded
    else if facts.is_directly_recursive
    then err direct_self_recursion_excluded
    else if not facts.has_opentelemetry
    then err missing_opentelemetry_dependency
    else ok (record {
      marker = p23_marker;
      span = record { tracer_scope = facts.crate_name; span_name = facts.function_name };
      lifecycle = if facts.is_async then async_future_context else sync_scoped_context;
      captures_result_status = facts.returns_result && facts.can_capture_result_status;
    })

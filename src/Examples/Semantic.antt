-- ===== src/Examples/Semantic.antt =====
-- A fallible method that is planned, and one that calls itself.
use rust_compile_time_instru.Prelude.{◌≡◌, refl, ◌↔◌, Bool, true, false, ok, err}
use rust_compile_time_instru.Semantics.{
  FunctionFacts, plan, free_function, direct_self_recursion_excluded, already_instrumented,
  p23_marker,
}
use rust_compile_time_instru.Bytes.{codes, contains}
use rust_compile_time_instru.Driver.Body.{instrument_body, edited_once}
use rust_compile_time_instru.Semantics.Policy.{
  IsEligible, expected, Explains, plan_exact, plan_refusal,
}

abbrev facts : Bool → FunctionFacts
facts recursive = record {
  function_name = "load";
  crate_name = "shop";
  shape = free_function;
  is_async = true;
  returns_result = true;
  can_capture_result_status = true;
  is_directly_recursive = recursive;
  first_party = true;
  already_instrumented = false;
  has_explicit_instrumentation = false;
  has_opentelemetry = true;
}

plan_exact_example :
    (plan (facts false) ≡ ok (expected (facts false)))
    ↔ (IsEligible (facts false) × (expected (facts false) ≡ expected (facts false)))
plan_exact_example = plan_exact (facts false) (expected (facts false))

planned : plan (facts false) ≡ ok (expected (facts false))
unfolding plan
planned = refl

refused : plan (facts true) ≡ err direct_self_recursion_excluded
unfolding plan
refused = refl

plan_refusal_example :
    (plan (facts true) ≡ err direct_self_recursion_excluded)
    ↔ Explains direct_self_recursion_excluded (facts true)
plan_refusal_example = plan_refusal (facts true) direct_self_recursion_excluded

abbrev again : FunctionFacts
again = record (facts false) {
  already_instrumented =
      contains (instrument_body (λ t. codes t) (codes "{ f() }") (expected (facts false)))
        (codes p23_marker);
  is_directly_recursive = true;
}

edited_once_example : plan again ≡ err already_instrumented
edited_once_example =
    edited_once (λ t. codes t) (codes "{ f() }") (facts false) again (expected (facts false))
      planned refl refl

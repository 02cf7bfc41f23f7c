-- ===== src/Examples/Runtime.antt =====
-- A span whose start calls back into the shim, with an error and a nested span inside it.
use rust_compile_time_instru.Prelude.{◌≡◌, refl, true, false, [], ◌∷◌, arith}
use rust_compile_time_instru.Bytes.{codes}
use rust_compile_time_instru.Shim.{
  Shim, Buffer, Foreign, returns, panics, then_calls, enter, exit, initial, push, otel_span_enter,
  otel_span_exit, otel_span_set_error, run_foreign, enter_span, enter_guarded, span_kind,
}
use rust_compile_time_instru.Shim.Utf8.{is_utf8}
use rust_compile_time_instru.Shim.Reentry.{foreign_noop}
use rust_compile_time_instru.Shim.Outcomes.{
  OpensOrNot, Closes, RecordsFirst, enter_outcome, exit_outcome, error_outcome,
}
use rust_compile_time_instru.Shim.Spans.{Nested, done, one_error, span, IsRestored, nested_restores}
use rust_compile_time_instru.Shim.Bounded.{IsBounded, run_calls, run_calls-IsBounded}

abbrev name : Buffer
name = record { is_null = false; bytes = codes "f" }

abbrev no_file : Buffer
no_file = record { is_null = true; bytes = [] }

-- An exporter that is itself instrumented.
abbrev reentrant : Foreign
reentrant =
    then_calls (enter name no_file 0 false returns panics 7) (then_calls (exit 1 returns) returns)

abbrev inside : Shim
inside = record { stack = []; next_handle = 1; in_shim = true; errors = [] }

abbrev two_spans : Shim
two_spans = record {
  stack = record { handle = 2; context = 20 } ∷ record { handle = 1; context = 10 } ∷ [];
  next_handle = 3;
  in_shim = false;
  errors = [];
}

foreign_noop_example : (run_foreign reentrant inside).state ≡ inside
foreign_noop_example = foreign_noop reentrant inside refl

enter_outcome_example :
    OpensOrNot 7 initial (
      otel_span_enter name no_file 0 false
        (run_foreign reentrant)
        (run_foreign reentrant)
        7
        initial)
enter_outcome_example = enter_outcome name no_file 0 false reentrant reentrant 7 initial

-- The first handle is 1, and the entry is on the stack.
opened :
    otel_span_enter name no_file 0 false (run_foreign reentrant) (run_foreign reentrant) 7 initial
    ≡ push 7 initial
unfolding otel_span_enter enter_span enter_guarded run_foreign otel_span_exit span_kind push is_utf8
opened = refl

run_calls-IsBounded_example :
    IsBounded 2 two_spans (run_calls (exit 2 reentrant ∷ exit 1 reentrant ∷ []) two_spans)
run_calls-IsBounded_example =
    run_calls-IsBounded (exit 2 reentrant ∷ exit 1 reentrant ∷ []) two_spans
      (omega arith, (omega arith, omega arith)) (omega arith)

error_outcome_example :
    RecordsFirst 1 two_spans (otel_span_set_error 1 (run_foreign panics) two_spans)
error_outcome_example = error_outcome 1 panics two_spans (λ e. omega arith) refl

exit_outcome_example : Closes 2 two_spans (otel_span_exit 2 (run_foreign reentrant) two_spans)
exit_outcome_example = exit_outcome 2 reentrant two_spans (λ e. omega arith) refl

-- A span around an error that is recorded on handle 1.
abbrev entered : Shim
entered =
    (otel_span_enter name no_file 0 false (run_foreign reentrant) (run_foreign reentrant) 7
      initial).0

abbrev failed : Shim
failed = otel_span_set_error 1 (run_foreign returns) entered

abbrev left : Shim
left =
    otel_span_exit
      ((otel_span_enter name no_file 0 false (run_foreign reentrant) (run_foreign reentrant) 7
        initial).1)
      (run_foreign panics) failed

abbrev calls : Nested initial left
calls =
    span initial failed left name no_file 0 false reentrant reentrant 7 panics
      (one_error entered failed 1 returns (done failed)) (done left)

nested_restores_example : IsRestored initial left
nested_restores_example = nested_restores initial left calls

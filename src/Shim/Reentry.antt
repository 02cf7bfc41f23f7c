-- ===== src/Shim/Reentry.antt =====
-- What foreign code can do to the shim while the shim is waiting for it.
use rust_compile_time_instru.Prelude.{ℕ, ◌≡◌, refl, ap, ◌∙◌, Bool, true, arith}
use rust_compile_time_instru.Shim.{
  Shim, Ran, Call, Foreign, enter, enter_v2, exit, set_error, async_stub, returns, panics,
  then_calls, run_call, run_foreign, otel_span_enter, otel_span_enter_v2, otel_span_exit,
  otel_span_set_error, enter_span, Buffer,
}

module _ (s : Shim) (busy : s.in_shim ≡ true) where
  pub enter_span_busy :
      (name file : Buffer) (kind : ℕ) (suppressed : Bool) (tracer start : Shim → Ran) (context : ℕ)
      → enter_span name file kind suppressed tracer start context s ≡ (s, 0)
  unfolding enter_span
  enter_span_busy name file kind suppressed tracer start context = ground arith

  pub call_busy : (c : Call) → run_call c s ≡ s
  unfolding run_call otel_span_enter otel_span_enter_v2 otel_span_exit otel_span_set_error
  call_busy (enter name file kind suppressed tracer start context) =
      ap (λ r. r.0)
        (enter_span_busy name file kind suppressed (run_foreign tracer) (run_foreign start) context)
  call_busy (enter_v2 scope name file kind suppressed tracer start context) =
      let e =
        enter_span_busy name file kind suppressed (run_foreign tracer) (run_foreign start)
          context in
      ground arith
  call_busy (exit h f) = ground arith
  call_busy (set_error h f) = ground arith
  call_busy async_stub = refl

-- While the shim waits for foreign code, whatever calls that code makes back into it, nested to
-- any depth, leave the stack, the handle counter, the flag and the recorded errors as they were.
pub foreign_noop : (f : Foreign) (s : Shim) → s.in_shim ≡ true → (run_foreign f s).state ≡ s
unfolding run_foreign
foreign_noop returns s busy = refl
foreign_noop panics s busy = refl
foreign_noop (then_calls c f) s busy =
    ap (λ t. (run_foreign f t).state) (call_busy s busy c) ∙ foreign_noop f s busy

-- ===== src/Shim/Spans.antt =====
-- The end of a span, its error status, and calls in nested order.
use rust_compile_time_instru.Prelude.{
  ℕ, ◌≡◌, refl, ap, ◌∙◌, ◌≢◌, inl, inr, Bool, true, false, Option, none, some, List, [], ◌∷◌, arith,
  ◌==◌, Bool-cases,
}
use rust_compile_time_instru.Shim.{
  Shim, Ran, Entry, Foreign, Buffer, run_foreign, otel_span_enter, otel_span_exit,
  otel_span_set_error, pop_matching, matches_top, find_handle, record_error, push, release,
}
use rust_compile_time_instru.Shim.Reentry.{foreign_noop}
use rust_compile_time_instru.Shim.Nesting.{EnterCases, enter_cases, push-stack, push-in_shim}

pub exit_busy : (h : ℕ) (f : Shim → Ran) (s : Shim) → s.in_shim ≡ true → otel_span_exit h f s ≡ s
unfolding otel_span_exit
exit_busy h f s busy = ground arith

pub exit_zero : (f : Shim → Ran) (s : Shim) → otel_span_exit 0 f s ≡ s
unfolding otel_span_exit
exit_zero f s = refl

pop_unmatched : (h : ℕ) (es : List Entry) → matches_top h es ≡ false → pop_matching h es ≡ es
unfolding pop_matching
pop_unmatched h [] m = refl
pop_unmatched h (e ∷ es) m = ground arith

-- Ending a span on a shim that no code is inside of: its entry is gone when it was the top one,
-- and nothing has changed when it was not.
pub exit_result :
    (h : ℕ) (f : Foreign) (s : Shim)
    → h ≢ 0
    → s.in_shim ≡ false
    → otel_span_exit h (run_foreign f) s ≡ record s { stack = pop_matching h s.stack }
unfolding otel_span_exit
exit_result h f s nonzero idle =
    let popped : Shim = record s { stack = pop_matching h s.stack; in_shim = true } in
    let quiet : (run_foreign f popped).state ≡ popped = foreign_noop f popped refl in
    let z : (h == 0) ≡ false = ground arith in
    elim (Bool-cases (matches_top h s.stack)) [
      | inl m ↦ simp (z, idle, m, quiet) refl
      | inr m ↦ simp (z, idle, m, pop_unmatched h s.stack m) refl
    ]

-- Calls of one thread in nested order: each span is ended with the handle that its start returned,
-- after the calls inside it; errors are recorded, and unmatched handles 0 ended, anywhere.
pub data Nested : Shim → Shim → Type 0 where
  done : (s : Shim) → Nested s s
  one_error :
      (s t : Shim) (h : ℕ) (f : Foreign)
      → Nested (otel_span_set_error h (run_foreign f) s) t
      → Nested s t
  span :
      (s t u : Shim) (name file : Buffer) (kind : ℕ) (suppressed : Bool) (tracer start : Foreign)
      (context : ℕ) (f : Foreign)
      → Nested
          ((otel_span_enter name file kind suppressed
            (run_foreign tracer)
            (run_foreign start)
            context
            s).0)
          t
      → Nested
          (otel_span_exit
            ((otel_span_enter name file kind suppressed
              (run_foreign tracer)
              (run_foreign start)
              context
              s).1)
            (run_foreign f)
            t)
          u
      → Nested s u

-- The part of the shim that nested calls leave alone.
pub record IsRestored (s t : Shim) : Type 0 where
  pub stack : t.stack ≡ s.stack
  pub in_shim : t.in_shim ≡ s.in_shim

IsRestored-trans : (s t u : Shim) → IsRestored s t → IsRestored t u → IsRestored s u
IsRestored-trans s t u a b = record { stack = b.stack ∙ a.stack; in_shim = b.in_shim ∙ a.in_shim }

pub error_busy :
    (h : ℕ) (f : Shim → Ran) (s : Shim) → s.in_shim ≡ true → otel_span_set_error h f s ≡ s
unfolding otel_span_set_error
error_busy h f s busy = ground arith

abbrev pub marked : Option Entry → List ℕ → List ℕ
marked none errors = errors
marked (some e) errors = e.context ∷ errors

recorded_as :
    (o : Option Entry) (f : Foreign) (s : Shim)
    → record_error o (run_foreign f) (record s { in_shim = true })
      ≡ record s { in_shim = true; errors = marked o s.errors }
unfolding record_error
recorded_as none f s = refl
recorded_as (some e) f s =
    foreign_noop f (record s { in_shim = true; errors = e.context ∷ s.errors }) refl

-- On a shim that no code is inside of, an error on a handle that is not 0 is recorded on the context
-- of the first entry from the top with that handle, if there is one, and nothing else changes.
pub error_result :
    (h : ℕ) (f : Foreign) (s : Shim)
    → h ≢ 0
    → s.in_shim ≡ false
    → otel_span_set_error h (run_foreign f) s
      ≡ record s { errors = marked (find_handle h s.stack) s.errors }
unfolding otel_span_set_error
error_result h f s nonzero idle =
    let z : (h == 0) ≡ false = ground arith in
    let r = recorded_as (find_handle h s.stack) f s in simp (z, idle) (ap release r)

pub error_zero : (f : Shim → Ran) (s : Shim) → otel_span_set_error 0 f s ≡ s
unfolding otel_span_set_error
error_zero f s = refl

error_restores :
    (h : ℕ) (f : Foreign) (s : Shim) → IsRestored s (otel_span_set_error h (run_foreign f) s)
error_restores h f s = elim (Bool-cases (h == 0)) [
  | inl z ↦
      let e : h ≡ 0 = ground arith in
      rw (e, error_zero (run_foreign f) s) (record { stack = refl; in_shim = refl })
  | inr z ↦ elim (Bool-cases s.in_shim) [
    | inl busy ↦ rw (error_busy h (run_foreign f) s busy) (record { stack = refl; in_shim = refl })
    | inr idle ↦
        let n : h ≢ 0 = ground arith in
        rw (error_result h f s n idle) (record { stack = refl; in_shim = refl })
  ]
]

pop_top :
    (h context : ℕ) (es : List Entry)
    → pop_matching h ((record { handle = h; context = context }) ∷ es) ≡ es
unfolding pop_matching
pop_top h context es = ground arith

exit_restores :
    (s t : Shim) (r : Shim × ℕ) (context : ℕ) (f : Foreign)
    → EnterCases context s r
    → IsRestored (r.0) t
    → IsRestored s (otel_span_exit (r.1) (run_foreign f) t)
exit_restores s t r context f (inl e) k =
    rw (ap (λ p. p.1) e, exit_zero (run_foreign f) t)
      (record {
        stack = k.stack ∙ ap (λ p. (p.0).stack) e;
        in_shim = k.in_shim ∙ ap (λ p. (p.0).in_shim) e;
      })
exit_restores s t r context f (inr e) k =
    let same : t.in_shim ≡ s.in_shim =
      k.in_shim ∙ ap (λ p. (p.0).in_shim) e.2 ∙ push-in_shim context s in
    let pushed : t.stack ≡ (record { handle = (push context s).1; context = context }) ∷ s.stack =
      k.stack ∙ ap (λ p. (p.0).stack) e.2 ∙ push-stack context s in
    let popped : pop_matching (r.1) t.stack ≡ s.stack =
      ap (λ p. pop_matching (p.1) t.stack) e.2
      ∙ ap (pop_matching ((push context s).1)) pushed
      ∙ pop_top _ context s.stack in
    rw (exit_result (r.1) f t e.1 (same ∙ e.0)) (record { stack = popped; in_shim = same })

-- A span that is started, runs any nested calls and is ended with its handle leaves the stack and
-- the re-entrancy flag as they were, whether or not the start succeeded, whatever foreign code does.
pub nested_restores : (s t : Shim) → Nested s t → IsRestored s t
nested_restores _ _ (done s) = record { stack = refl; in_shim = refl }
nested_restores _ _ (one_error s t h f n) =
    IsRestored-trans s _ t (error_restores h f s) (nested_restores _ _ n)
nested_restores _ _ (span s t u name file kind suppressed tracer start context f n m) =
    IsRestored-trans s _ u
      (exit_restores s t _ context f (enter_cases name file kind suppressed tracer start context s)
        (nested_restores _ _ n))
      (nested_restores _ _ m)

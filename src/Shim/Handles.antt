-- ===== src/Shim/Handles.antt =====
-- The handles on the stack, and the span that an error is recorded on.
use rust_compile_time_instru.Prelude.{
  ℕ, ◌+◌, ◌^◌, ◌≤◌, ◌<◌, ◌≡◌, refl, ◌≢◌, inl, inr, Bool, false, List, [], ◌∷◌, arith, ◌==◌,
  Bool-cases,
}
use rust_compile_time_instru.Shim.{
  Shim, Entry, Call, Foreign, Buffer, enter, enter_v2, exit, set_error, async_stub, run_call,
  run_foreign, otel_span_enter, otel_span_enter_v2, otel_span_exit, otel_span_set_error, is_missing,
  pop_matching, push, fresh_handle,
}
use rust_compile_time_instru.Shim.Utf8.{is_utf8}
use rust_compile_time_instru.Shim.Reentry.{call_busy}
use rust_compile_time_instru.Shim.Nesting.{EnterCases, enter_cases}
use rust_compile_time_instru.Shim.Spans.{exit_result, exit_zero, error_result, error_zero}

-- The handles fall strictly from the top of the stack down, between `n` and 0.
abbrev pub Below : ℕ → List Entry → Type 0
Below n [] = 0 < n
Below n (e ∷ es) = (e.handle < n) × Below e.handle es

-- The handles on the stack are distinct, not 0 and already handed out.
abbrev pub IsOrdered : Shim → Type 0
IsOrdered s = Below s.next_handle s.stack

-- What a call does to the part that the order is about.
abbrev pub Keeps : Shim → Shim → Type 0
Keeps s t = IsOrdered t × (s.next_handle ≤ t.next_handle) × (t.next_handle ≤ s.next_handle + 1)

Below-weaken : (m n : ℕ) (es : List Entry) → m ≤ n → Below m es → Below n es
Below-weaken m n [] l h = omega arith
Below-weaken m n (e ∷ es) l h = ((omega arith), h.1)

Below-positive : (n : ℕ) (es : List Entry) → Below n es → 0 < n
Below-positive n [] h = h
Below-positive n (e ∷ es) h = omega arith

fresh_in_range : (n : ℕ) → 0 < n → n + 1 < 2 ^ 64 → fresh_handle n ≡ (n, n + 1)
unfolding fresh_handle
fresh_in_range n p l = ground arith

stays : (s : Shim) → IsOrdered s → Keeps s s
stays s o = (o, omega arith, omega arith)

module _ (s : Shim) (ordered : IsOrdered s) (room : s.next_handle + 1 < 2 ^ 64) where
  push-Keeps : (context : ℕ) → Keeps s ((push context s).0)
  unfolding push
  push-Keeps context =
      let p : 0 < s.next_handle = Below-positive s.next_handle s.stack ordered in
      rw (fresh_in_range s.next_handle p room) ((omega arith, ordered), omega arith, omega arith)

  enter-Keeps : (context : ℕ) (r : Shim × ℕ) → EnterCases context s r → Keeps s (r.0)
  enter-Keeps context r (inl e) = rw e (stays s ordered)
  enter-Keeps context r (inr e) = rw (e.2) (push-Keeps context)

  pop-Keeps : (h : ℕ) (es : List Entry) (n : ℕ) → Below n es → Below n (pop_matching h es)
  unfolding pop_matching
  pop-Keeps h [] n b = b
  pop-Keeps h (e ∷ es) n b = let w = Below-weaken e.handle n es (omega arith) b.1 in ground arith

  v2_cases :
      (scope name file : Buffer) (kind : ℕ) (suppressed : Bool) (tracer start : Foreign)
      (context : ℕ)
      → EnterCases context s (
          otel_span_enter_v2 scope name file kind suppressed
            (run_foreign tracer)
            (run_foreign start)
            context
            s)
  unfolding otel_span_enter_v2 otel_span_enter
  v2_cases scope name file kind suppressed tracer start context =
      let o = enter_cases name file kind suppressed tracer start context s in
      elim (Bool-cases (is_missing scope)) [
        | inl a ↦ rw a (inl refl)
        | inr a ↦ elim (Bool-cases (is_utf8 scope.bytes)) [
          | inl b ↦ simp (a, b) o
          | inr b ↦ simp (a, b) (inl refl)
        ]
      ]

  exit-Keeps :
      (h : ℕ) (f : Foreign) → s.in_shim ≡ false → Keeps s (otel_span_exit h (run_foreign f) s)
  exit-Keeps h f idle = elim (Bool-cases (h == 0)) [
    | inl z ↦ let e : h ≡ 0 = ground arith in rw (e, exit_zero (run_foreign f) s) (stays s ordered)
    | inr z ↦
        let n : h ≢ 0 = ground arith in
        rw (exit_result h f s n idle)
          (pop-Keeps h s.stack s.next_handle ordered, omega arith, omega arith)
  ]

  error-Keeps :
      (h : ℕ) (f : Foreign) → s.in_shim ≡ false → Keeps s (otel_span_set_error h (run_foreign f) s)
  error-Keeps h f idle = elim (Bool-cases (h == 0)) [
    | inl z ↦ let e : h ≡ 0 = ground arith in rw (e, error_zero (run_foreign f) s) (stays s ordered)
    | inr z ↦
        let n : h ≢ 0 = ground arith in
        rw (error_result h f s n idle) (ordered, omega arith, omega arith)
  ]

  idle-Keeps : (c : Call) → s.in_shim ≡ false → Keeps s (run_call c s)
  unfolding run_call
  idle-Keeps (enter name file kind suppressed tracer start context) idle =
      enter-Keeps context _ (enter_cases name file kind suppressed tracer start context s)
  idle-Keeps (enter_v2 scope name file kind suppressed tracer start context) idle =
      enter-Keeps context _ (v2_cases scope name file kind suppressed tracer start context)
  idle-Keeps (exit h f) idle = exit-Keeps h f idle
  idle-Keeps (set_error h f) idle = error-Keeps h f idle
  idle-Keeps async_stub idle = stays s ordered

-- Until the 64-bit counter is about to wrap, every call of an exported function keeps the handles
-- on the stack distinct, not 0 and below the counter, which advances by at most 1.
pub call-Keeps_order :
    (c : Call) (s : Shim) → IsOrdered s → s.next_handle + 1 < 2 ^ 64 → Keeps s (run_call c s)
call-Keeps_order c s ordered room = elim (Bool-cases s.in_shim) [
  | inl busy ↦ rw (call_busy s busy c) (stays s ordered)
  | inr idle ↦ idle-Keeps s ordered room c idle
]

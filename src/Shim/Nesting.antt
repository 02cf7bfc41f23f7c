-- ===== src/Shim/Nesting.antt =====
-- The start of a span: what it leaves behind on every branch.
use rust_compile_time_instru.Prelude.{
  ℕ, ◌≡◌, refl, sym, ap, ◌∙◌, ◌≢◌, ◌⊎◌, inl, inr, Bool, true, false, not, ◌&&◌, none, some, ◌∷◌,
  arith, Bool-cases, Option-cases,
}
use rust_compile_time_instru.Shim.{
  Shim, Ran, Foreign, run_foreign, otel_span_enter, enter_span, enter_guarded, SpanKind, is_missing,
  span_kind, fresh_handle, push, Buffer, release,
}
use rust_compile_time_instru.Shim.Utf8.{is_utf8}
use rust_compile_time_instru.Shim.Reentry.{foreign_noop, enter_span_busy}

-- Foreign code that leaves a shim that is waiting for it unchanged, as all of it does.
abbrev pub IsQuiet : (Shim → Ran) → Type 0
IsQuiet f = (s : Shim) → s.in_shim ≡ true → (f s).state ≡ s

-- No span was opened, or one was, on top.
abbrev Entered : ℕ → Shim → Shim × ℕ → Type 0
Entered context s r = (r ≡ (s, 0)) ⊎ ((r.1 ≢ 0) × (r ≡ push context s))

fresh_handle-nonzero : (n : ℕ) → (fresh_handle n).0 ≢ 0
unfolding fresh_handle
fresh_handle-nonzero n = ground arith

push-nonzero : (context : ℕ) (s : Shim) → (push context s).1 ≢ 0
unfolding push
push-nonzero context s = fresh_handle-nonzero s.next_handle

module _ (name file : Buffer) (kind : ℕ) (tracer start : Shim → Ran) (context : ℕ) (s : Shim) where
  -- The guarded part, with every test and every foreign result named.
  guarded_by :
      (e : (tracer s).state ≡ s) (e' : (start s).state ≡ s)
      → (is_utf8 name.bytes ≡ true) ⊎ (is_utf8 name.bytes ≡ false)
      → ((tracer s).panicked ≡ true) ⊎ ((tracer s).panicked ≡ false)
      → (span_kind kind ≡ none) ⊎ ((k : SpanKind) × (span_kind kind ≡ some k))
      → ((not (is_missing file) && not (is_utf8 file.bytes)) ≡ true)
        ⊎ ((not (is_missing file) && not (is_utf8 file.bytes)) ≡ false)
      → ((start s).panicked ≡ true) ⊎ ((start s).panicked ≡ false)
      → Entered context s (enter_guarded name file kind tracer start context s)
  unfolding enter_guarded
  guarded_by e e' (inr a) _ _ _ _ = rw a (inl refl)
  guarded_by e e' (inl a) (inl b) _ _ _ = rw (a, b) (inl (ap (λ t. (t, 0)) e))
  guarded_by e e' (inl a) (inr b) (inl c) _ _ = rw (a, b, c) (inl (ap (λ t. (t, 0)) e))
  guarded_by e e' (inl a) (inr b) (inr k) (inl d) _ = rw (a, b, k.1, e, d) (inl refl)
  guarded_by e e' (inl a) (inr b) (inr k) (inr d) (inl f) =
      rw (a, b, k.1, e, d, f) (inl (ap (λ t. (t, 0)) e'))
  guarded_by e e' (inl a) (inr b) (inr k) (inr d) (inr f) =
      rw (a, b, k.1, e, d, f, e') (inr (push-nonzero context s, refl))

  guarded :
      IsQuiet tracer
      → IsQuiet start
      → s.in_shim ≡ true
      → Entered context s (enter_guarded name file kind tracer start context s)
  guarded t u busy =
      guarded_by (t s busy) (u s busy) (Bool-cases _) (Bool-cases _) (Option-cases _) (Bool-cases _)
        (Bool-cases _)

-- Leaving the guard gives back the shim that was entered.
pub release_idle : (s : Shim) → s.in_shim ≡ false → record s { in_shim = false } ≡ s
release_idle s idle = ap (λ b. record s { in_shim = b }) (sym idle)

released :
    (context : ℕ) (s : Shim) (r : Shim × ℕ)
    → s.in_shim ≡ false
    → Entered context (record s { in_shim = true }) r
    → Entered context s (release (r.0), r.1)
unfolding push
released context s r idle (inl e) =
    inl (ap (λ p. (release (p.0), p.1)) e ∙ ap (λ t. (t, 0)) (release_idle s idle))
released context s r idle (inr e) =
    inr (e.0, ap (λ p. (release (p.0), p.1)) (e.1) ∙ ap (λ t. push context t) (release_idle s idle))

Entered-idle :
    (name file : Buffer) (kind : ℕ) (suppressed : Bool) (tracer start : Shim → Ran) (context : ℕ)
    (s : Shim)
    → IsQuiet tracer
    → IsQuiet start
    → s.in_shim ≡ false
    → Entered context s (enter_span name file kind suppressed tracer start context s)
unfolding enter_span
Entered-idle name file kind suppressed tracer start context s t u idle =
    let g = guarded name file kind tracer start context (record s { in_shim = true }) t u refl in
    let r =
      released context s
        (enter_guarded name file kind tracer start context (record s { in_shim = true })) idle g in
    elim (Bool-cases (is_missing name)) [
      | inl a ↦ rw a (inl refl)
      | inr a ↦ elim (Bool-cases suppressed) [
        | inl b ↦ rw (a, b) (inl refl)
        | inr b ↦ simp (a, b, idle) r
      ]
    ]

abbrev pub EnterCases : ℕ → Shim → Shim × ℕ → Type 0
EnterCases context s r = (r ≡ (s, 0)) ⊎ ((s.in_shim ≡ false) × (r.1 ≢ 0) × (r ≡ push context s))

Entered-EnterCases :
    (context : ℕ) (s : Shim) (r : Shim × ℕ)
    → s.in_shim ≡ false
    → Entered context s r
    → EnterCases context s r
Entered-EnterCases context s r idle (inl e) = inl e
Entered-EnterCases context s r idle (inr e) = inr (idle, e.0, e.1)

-- Entering a span, whatever its arguments, the shim and the calls that OpenTelemetry makes back:
-- either handle 0 is returned and nothing has changed, or no code was inside the shim, the handle
-- is not 0, and one entry on top with it and the advanced counter are all that is new.
pub enter_cases :
    (name file : Buffer) (kind : ℕ) (suppressed : Bool) (tracer start : Foreign) (context : ℕ)
    (s : Shim)
    → EnterCases context s (
        otel_span_enter name file kind suppressed
          (run_foreign tracer)
          (run_foreign start)
          context
          s)
unfolding otel_span_enter
enter_cases name file kind suppressed tracer start context s = elim (Bool-cases s.in_shim) [
  | inl busy ↦ inl (
      enter_span_busy s busy name file kind suppressed (run_foreign tracer) (run_foreign start)
        context)
  | inr idle ↦ Entered-EnterCases context s _ idle (
      Entered-idle name file kind suppressed (run_foreign tracer) (run_foreign start) context s
        (foreign_noop tracer) (foreign_noop start) idle)
]

pub push-stack :
    (context : ℕ) (s : Shim)
    → (push context s).0.stack
      ≡ (record { handle = (push context s).1; context = context }) ∷ s.stack
unfolding push
push-stack context s = refl

pub push-in_shim : (context : ℕ) (s : Shim) → (push context s).0.in_shim ≡ s.in_shim
unfolding push
push-in_shim context s = refl

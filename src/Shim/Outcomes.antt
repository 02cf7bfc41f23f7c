-- ===== src/Shim/Outcomes.antt =====
-- The exported calls of otel-shim/src/lib.rs, described by the stack before and after them.
use rust_compile_time_instru.Prelude.{
  ℕ, ◌+◌, ◌%◌, ◌^◌, ◌≡◌, refl, sym, ap, ◌∙◌, subst, ◌≢◌, ◌⊎◌, inl, inr, Bool, false, Option, none,
  some, List, [], ◌∷◌, ◌++◌, arith, ◌==◌, Bool-cases, All,
}
use rust_compile_time_instru.Shim.{
  Shim, Entry, Foreign, Buffer, run_foreign, otel_span_enter, otel_span_exit, otel_span_set_error,
  pop_matching, find_handle, push, fresh_handle,
}
use rust_compile_time_instru.Shim.Nesting.{enter_cases}
use rust_compile_time_instru.Shim.Spans.{exit_result, error_result, marked}

-- A span was opened with this handle: its entry is on top, the handle was the counter's value (1 where
-- the counter stood at 0), and the counter holds the next one.
pub record Opens (context : ℕ) (s t : Shim) (handle : ℕ) : Type 0 where
  pub idle : s.in_shim ≡ false
  pub handle_nonzero : handle ≢ 0
  pub handle_counted : s.next_handle ≢ 0 → handle ≡ s.next_handle
  pub handle_wrapped : s.next_handle ≡ 0 → handle ≡ 1
  pub stack : t.stack ≡ (record { handle = handle; context = context }) ∷ s.stack
  pub next_handle : t.next_handle ≡ (handle + 1) % 2 ^ 64
  pub in_shim : t.in_shim ≡ false
  pub errors : t.errors ≡ s.errors

abbrev pub OpensOrNot : ℕ → Shim → Shim × ℕ → Type 0
OpensOrNot context s r = (r ≡ (s, 0)) ⊎ Opens context s (r.0) (r.1)

push-Opens :
    (context : ℕ) (s : Shim)
    → s.in_shim ≡ false
    → (push context s).1 ≢ 0
    → Opens context s ((push context s).0) ((push context s).1)
unfolding push fresh_handle
push-Opens context s idle nonzero = record {
  idle = idle;
  handle_nonzero = nonzero;
  handle_counted = λ n. ground arith;
  handle_wrapped = λ z. ground arith;
  stack = refl;
  next_handle = ground arith;
  in_shim = idle;
  errors = refl;
}

-- Entering a span, whatever its arguments, the shim and the calls that OpenTelemetry makes back:
-- either handle 0 is returned and nothing has changed, or no code was inside the shim, and the stack
-- has one more entry, on top, with the context and the handle returned. The handle is not 0; it is the
-- value of the counter, or 1 if that was 0, and the counter then is the next number of 64 bits.
pub enter_outcome :
    (name file : Buffer) (kind : ℕ) (suppressed : Bool) (tracer start : Foreign) (context : ℕ)
    (s : Shim)
    → OpensOrNot context s (
        otel_span_enter name file kind suppressed
          (run_foreign tracer)
          (run_foreign start)
          context
          s)
enter_outcome name file kind suppressed tracer start context s =
    elim (enter_cases name file kind suppressed tracer start context s) [
      | inl e ↦ inl e
      | inr e ↦
          let n = subst (λ r. r.1 ≢ 0) e.2 e.1 in
          inr (subst (λ r. Opens context s (r.0) (r.1)) (sym e.2) (push-Opens context s e.0 n))
    ]

abbrev pub Closes : ℕ → Shim → Shim → Type 0
Closes h s t =
    ((top : Entry) × (below : List Entry) × (s.stack ≡ top ∷ below)
      × (top.handle ≡ h)
      × (t ≡ record s { stack = below }))
    ⊎ (((top : Entry) (below : List Entry) → s.stack ≡ top ∷ below → top.handle ≢ h) × (t ≡ s))

pop-Closes :
    (h : ℕ) (s : Shim) (es : List Entry)
    → s.stack ≡ es
    → Closes h s (record s { stack = pop_matching h es })
unfolding pop_matching
pop-Closes h s [] e =
    inr ((λ top below f. absurd (cc (e, f))), ap (λ l. record s { stack = l }) (sym e))
pop-Closes h s (top ∷ below) e = elim (Bool-cases (top.handle == h)) [
  | inl m ↦ let same : top.handle ≡ h = ground arith in inl (top, below, e, same, rw m refl)
  | inr m ↦ inr (
    (λ other rest f k.
        let g : top ≡ other = cc (e, f) in
        let q : top.handle ≡ h = ap (λ x. x.handle) g ∙ k in ground arith),
    rw m (ap (λ l. record s { stack = l }) (sym e)),
  )
]

-- Ending a span on a shim that no code is inside of, with a handle that is not 0: if the entry on top of
-- the stack has the handle, it is gone and nothing else has changed; if it has another handle or there
-- is none, nothing has changed.
pub exit_outcome :
    (h : ℕ) (f : Foreign) (s : Shim)
    → h ≢ 0
    → s.in_shim ≡ false
    → Closes h s (otel_span_exit h (run_foreign f) s)
exit_outcome h f s nonzero idle = rw (exit_result h f s nonzero idle) (pop-Closes h s s.stack refl)

abbrev pub HasOther : ℕ → Entry → Type 0
HasOther h e = e.handle ≢ h

abbrev FindsFirst : ℕ → List Entry → Option Entry → Type 0
FindsFirst h es none = All (HasOther h) es
FindsFirst h es (some e) =
    (above : List Entry) × (below : List Entry) × (es ≡ above ++ e ∷ below)
    × All (HasOther h) above
    × (e.handle ≡ h)

find-FindsFirst : (h : ℕ) (es : List Entry) → FindsFirst h es (find_handle h es)
unfolding find_handle
find-FindsFirst h [] = tt
find-FindsFirst h (e ∷ es) = elim (Bool-cases (e.handle == h)) [
  | inl m ↦ let same : e.handle ≡ h = ground arith in rw m ([], es, refl, tt, same)
  | inr m ↦
      let differs : HasOther h e = ground arith in
      rw m (later differs (find_handle h es) (find-FindsFirst h es))
]
  where
    later : HasOther h e → (o : Option Entry) → FindsFirst h es o → FindsFirst h (e ∷ es) o
    later d none a = (d, a)
    later d (some x) f = (e ∷ f.0, f.1, ap (λ l. e ∷ l) f.2, (d, f.3), f.4)

abbrev pub RecordsFirst : ℕ → Shim → Shim → Type 0
RecordsFirst h s t =
    (All (HasOther h) s.stack × (t ≡ s))
    ⊎ ((e : Entry) × (above : List Entry) × (below : List Entry) × (s.stack ≡ above ++ e ∷ below)
        × All (HasOther h) above
        × (e.handle ≡ h)
        × (t ≡ record s { errors = e.context ∷ s.errors }))

found-RecordsFirst :
    (h : ℕ) (s : Shim) (o : Option Entry)
    → FindsFirst h s.stack o
    → RecordsFirst h s (record s { errors = marked o s.errors })
found-RecordsFirst h s none f = inl (f, refl)
found-RecordsFirst h s (some e) f = inr (e, f.0, f.1, f.2, f.3, f.4, refl)

-- An error on a handle that is not 0, on a shim that no code is inside of: if an entry of the stack has
-- the handle, the error is recorded on the context of the first such entry from the top and nothing else
-- has changed; if none has it, nothing has changed.
pub error_outcome :
    (h : ℕ) (f : Foreign) (s : Shim)
    → h ≢ 0
    → s.in_shim ≡ false
    → RecordsFirst h s (otel_span_set_error h (run_foreign f) s)
error_outcome h f s nonzero idle =
    rw (error_result h f s nonzero idle)
      (found-RecordsFirst h s (find_handle h s.stack) (find-FindsFirst h s.stack))

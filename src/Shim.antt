-- ===== src/Shim.antt =====
-- otel-shim/src/lib.rs: the runtime trampoline. Its state is what one thread sees of it: the stack of
-- attached spans, the handle counter and the re-entrancy flag. OpenTelemetry is not modelled: what
-- its code does while the shim waits for it is a finite tree of the calls that it makes back into
-- the shim, ended by a return or by a panic (`Foreign`), and a context is known by a number.
pub mod Utf8
pub mod Reentry
pub mod Nesting
pub mod Spans
pub mod Outcomes
pub mod Handles
pub mod Bounded
use rust_compile_time_instru.Prelude.{
  ℕ, ◌+◌, ◌%◌, ◌^◌, Bool, true, false, not, ◌&&◌, ◌||◌, Option, none, some, List, [], ◌∷◌, ◌==◌,
  if◌then◌else◌, length,
}
use rust_compile_time_instru.Bytes.{Bytes}
use rust_compile_time_instru.Shim.Utf8.{is_utf8}

-- A pointer and a length that the caller vouches for.
pub record Buffer : Type 0 where
  pub is_null : Bool
  pub bytes : Bytes

-- An entry of STACK: `(handle, context, guard)`, the guard going with the context.
pub record Entry : Type 0 where
  pub handle : ℕ
  pub context : ℕ

-- STACK (its top first), NEXT_HANDLE, IN_SHIM, and the contexts whose span got an error status,
-- the latest first.
pub record Shim : Type 0 where
  pub stack : List Entry
  pub next_handle : ℕ
  pub in_shim : Bool
  pub errors : List ℕ

-- The static initialisers.
abbrev pub initial : Shim
initial = record { stack = []; next_handle = 1; in_shim = false; errors = [] }

-- Where a run of foreign code leaves the shim, and whether it unwinds.
pub record Ran : Type 0 where
  pub state : Shim
  pub panicked : Bool

pub data SpanKind : Type 0 where
  internal : SpanKind
  server : SpanKind
  client : SpanKind
  producer : SpanKind
  consumer : SpanKind

unfoldable pub span_kind : ℕ → Option SpanKind
span_kind k =
    if k == 0
    then some internal
    else if k == 1
    then some server
    else if k == 2
    then some client
    else if k == 3
    then some producer
    else if k == 4
    then some consumer
    else none

-- `ReentrancyGuard::acquire`, and the `Drop` of the guard.
abbrev pub acquire : Shim → Option Shim
acquire s = if s.in_shim then none else some (record s { in_shim = true })

abbrev pub release : Shim → Shim
release s = record s { in_shim = false }

-- `ptr.is_null() || len == 0`
abbrev pub is_missing : Buffer → Bool
is_missing b = b.is_null || (length b.bytes == 0)

-- `NEXT_HANDLE.fetch_add(1)`, which wraps at 64 bits, taken twice when the first value is 0: the
-- handle and the counter after it.
unfoldable pub fresh_handle : ℕ → ℕ × ℕ
fresh_handle n = let m = (n + 1) % 2 ^ 64 in if n == 0 then (m, (m + 1) % 2 ^ 64) else (n, m)

unfoldable pub push : ℕ → Shim → Shim × ℕ
push context s =
    let f = fresh_handle s.next_handle in
    (
      record s {
        stack = (record { handle = f.0; context = context }) ∷ s.stack;
        next_handle = f.1;
      },
      f.0,
    )

-- The guarded part of `enter_span`, up to the release of the guard: `tracer` is the look-up of the
-- tracer, `start` the start of the span and the attachment of its context.
unfoldable pub enter_guarded :
    Buffer → Buffer → ℕ → (tracer start : Shim → Ran) → ℕ → Shim → Shim × ℕ
enter_guarded name file kind tracer start context s =
    if not (is_utf8 name.bytes)
    then (s, 0)
    else let t = tracer s in
      if t.panicked then (t.state, 0) else elim (span_kind kind) [
        | none ↦ (t.state, 0)
        | some k ↦
            if not (is_missing file) && not (is_utf8 file.bytes)
            then (t.state, 0)
            else let r = start t.state in if r.panicked then (r.state, 0) else push context r.state
      ]

-- `enter_span`: the shim after it and the handle returned. `suppressed` is what
-- `Context::is_current_telemetry_suppressed` answers.
unfoldable pub enter_span :
    Buffer → Buffer → ℕ → Bool → (tracer start : Shim → Ran) → ℕ → Shim → Shim × ℕ
enter_span name file kind suppressed tracer start context s =
    if is_missing name then (s, 0) else if suppressed then (s, 0) else elim (acquire s) [
      | none ↦ (s, 0)
      | some g ↦ let r = enter_guarded name file kind tracer start context g in (release (r.0), r.1)
    ]

-- `__otel_span_enter` and `__otel_span_enter_v2`; the first names its scope "dependency".
unfoldable pub otel_span_enter :
    Buffer → Buffer → ℕ → Bool → (tracer start : Shim → Ran) → ℕ → Shim → Shim × ℕ
otel_span_enter = enter_span

unfoldable pub otel_span_enter_v2 :
    Buffer → Buffer → Buffer → ℕ → Bool → (tracer start : Shim → Ran) → ℕ → Shim → Shim × ℕ
otel_span_enter_v2 scope name file kind suppressed tracer start context s =
    if is_missing scope
    then (s, 0)
    else if not (is_utf8 scope.bytes)
    then (s, 0)
    else enter_span name file kind suppressed tracer start context s

-- The pop of `__otel_span_exit`: only when the handle is the top one's.
unfoldable pub pop_matching : ℕ → List Entry → List Entry
pop_matching h [] = []
pop_matching h (e ∷ es) = if e.handle == h then es else e ∷ es

abbrev pub matches_top : ℕ → List Entry → Bool
matches_top h [] = false
matches_top h (e ∷ es) = e.handle == h

-- `__otel_span_exit`: `ended` is the foreign code that the drop of the popped entry runs.
unfoldable pub otel_span_exit : ℕ → (ended : Shim → Ran) → Shim → Shim
otel_span_exit h ended s = if h == 0 then s else elim (acquire s) [
  | none ↦ s
  | some g ↦
      let popped = record g { stack = pop_matching h g.stack } in
      if matches_top h g.stack then release ((ended popped).state) else release popped
]

-- `st.iter().rev().find(|(h, ..)| *h == handle)`
unfoldable pub find_handle : ℕ → List Entry → Option Entry
find_handle h [] = none
find_handle h (e ∷ es) = let rest = find_handle h es in if e.handle == h then some e else rest

-- The body of the `if let`: `recorded` is the foreign code of `set_status`.
unfoldable pub record_error : Option Entry → (recorded : Shim → Ran) → Shim → Shim
record_error none recorded g = g
record_error (some e) recorded g = (recorded (record g { errors = e.context ∷ g.errors })).state

-- `__otel_span_set_error`
unfoldable pub otel_span_set_error : ℕ → (recorded : Shim → Ran) → Shim → Shim
otel_span_set_error h recorded s = if h == 0 then s else elim (acquire s) [
  | none ↦ s
  | some g ↦ release (record_error (find_handle h g.stack) recorded g)
]

-- The stubs of the asynchronous tier.
abbrev pub otel_span_start : Shim → Shim × ℕ
otel_span_start s = (s, 0)

abbrev pub otel_span_end : ℕ → Shim → Shim
otel_span_end h s = s

abbrev pub otel_ctx_attach : ℕ → Shim → Shim × ℕ
otel_ctx_attach h s = (s, 0)

abbrev pub otel_ctx_detach : ℕ → Shim → Shim
otel_ctx_detach token s = s

-- `active_span_count`
abbrev pub active_span_count : Shim → ℕ
active_span_count s = length s.stack

-- A call of an exported function with what the foreign code that it reaches will do, and foreign
-- code as the calls it makes.
mutual
  pub data Call : Type 0 where
    enter :
        (name file : Buffer) (kind : ℕ) (suppressed : Bool) (tracer start : Foreign) (context : ℕ)
        → Call
    enter_v2 :
        (scope name file : Buffer) (kind : ℕ) (suppressed : Bool) (tracer start : Foreign)
        (context : ℕ)
        → Call
    exit : (handle : ℕ) (ended : Foreign) → Call
    set_error : (handle : ℕ) (recorded : Foreign) → Call
    async_stub : Call

  pub data Foreign : Type 0 where
    returns : Foreign
    panics : Foreign
    then_calls : Call → Foreign → Foreign

unfoldable mutual
  pub run_call : Call → Shim → Shim
  run_call (enter name file kind suppressed tracer start context) s =
      (otel_span_enter name file kind suppressed (run_foreign tracer) (run_foreign start) context
        s).0
  run_call (enter_v2 scope name file kind suppressed tracer start context) s =
      (otel_span_enter_v2 scope name file kind suppressed (run_foreign tracer) (run_foreign start)
        context s).0
  run_call (exit h ended) s = otel_span_exit h (run_foreign ended) s
  run_call (set_error h recorded) s = otel_span_set_error h (run_foreign recorded) s
  run_call async_stub s = (otel_span_start s).0

  pub run_foreign : Foreign → Shim → Ran
  run_foreign returns s = record { state = s; panicked = false }
  run_foreign panics s = record { state = s; panicked = true }
  run_foreign (then_calls c f) s = run_foreign f (run_call c s)

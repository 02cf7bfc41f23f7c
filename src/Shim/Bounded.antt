-- ===== src/Shim/Bounded.antt =====
-- Sequences of calls of the exported functions by one thread.
use rust_compile_time_instru.Prelude.{ℕ, ◌+◌, ◌^◌, ◌≤◌, ◌<◌, List, [], ◌∷◌, arith, length}
use rust_compile_time_instru.Shim.{Shim, Entry, Call, run_call, active_span_count}
use rust_compile_time_instru.Shim.Handles.{IsOrdered, Below, call-Keeps_order}

unfoldable pub run_calls : List Call → Shim → Shim
run_calls [] s = s
run_calls (c ∷ calls) s = run_calls calls (run_call c s)

-- Ordered handles, a counter that advanced by no more than `n`, and fewer open spans than the counter.
abbrev pub IsBounded : ℕ → Shim → Shim → Type 0
IsBounded n s t =
    IsOrdered t
    × (s.next_handle ≤ t.next_handle)
    × (t.next_handle ≤ s.next_handle + n)
    × (active_span_count t < t.next_handle)

Below-length : (n : ℕ) (es : List Entry) → Below n es → length es < n
Below-length n [] b = b
Below-length n (e ∷ es) b = let i = Below-length e.handle es b.1 in omega arith

-- While the 64-bit counter has room for all calls of a sequence, the calls leave the handles on the
-- stack distinct, not 0 and below the counter; the counter has advanced by at most the number of
-- calls, and fewer spans are open than it counts.
pub run_calls-IsBounded :
    (calls : List Call) (s : Shim)
    → IsOrdered s
    → s.next_handle + length calls < 2 ^ 64
    → IsBounded (length calls) s (run_calls calls s)
unfolding run_calls
run_calls-IsBounded [] s ordered room =
    (ordered, omega arith, omega arith, Below-length s.next_handle s.stack ordered)
run_calls-IsBounded (c ∷ calls) s ordered room =
    let k = call-Keeps_order c s ordered (omega (arith, room)) in
    let i = run_calls-IsBounded calls (run_call c s) (k.0) (omega (arith, room, k)) in
    (i.0, omega (arith, i, k), omega (arith, i, k), i.3)

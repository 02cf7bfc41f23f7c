-- ===== src/Transform/Build.antt =====
-- `TransformationPlan::build_with_emitter_and_spawns` of cargo-instrument/src/transform.rs. A loop
-- over a list is a recursion on it, and `none` stands for a panic.
pub mod Edits
pub mod Total
pub mod Walk
pub mod Skips
pub mod Order
mod Examples
use Prim.Native.Nat.{compare, Ordering}
use rust_compile_time_instru.Prelude.{
  ℕ, suc, ◌+◌, ◌-◌, Bool, true, false, not, ◌&&◌, ◌||◌, Option, none, some, List, [], ◌∷◌, ◌++◌,
  length, leb, ltb, ◌==◌, if◌then◌else◌, Result, ok, err,
}
use rust_compile_time_instru.Bytes.{
  Bytes, codes, byte_at, is_char_boundary, slice, strip_prefix, contains, trim_start, compare_bytes,
}
use rust_compile_time_instru.Candidate.{Candidate, Range, SpawnSite}
use rust_compile_time_instru.Transform.Sort.{sort}
use rust_compile_time_instru.Transform.{
  TransformError, SkipReason, SkippedCandidate, Emitter, ByteEdit, TransformationPlan,
  instrument_anchor_prefix,
}

-- `sample.matches("\r\n").count()` and `sample.matches('\n').count()`
count_crlf : Bytes → ℕ
count_crlf [] = 0
count_crlf (a ∷ []) = 0
count_crlf (a ∷ b ∷ s) =
    let hit = suc (count_crlf s) in
    let miss = count_crlf (b ∷ s) in if a == 13 && b == 10 then hit else miss

count_lf : Bytes → ℕ
count_lf [] = 0
count_lf (a ∷ s) = (if a == 10 then 1 else 0) + count_lf s

abbrev pub lf : Bytes
lf = 10 ∷ []

abbrev pub crlf : Bytes
crlf = 13 ∷ 10 ∷ []

-- `&source[..4096]` panics where 4096 falls inside a character.
sample_of : Bytes → Option Bytes
sample_of source = if ltb 4096 (length source) then slice source 0 4096 else some source

line_ending_of : Bytes → Bytes
line_ending_of sample =
    let crlf_count = count_crlf sample in
    let lf_count = count_lf sample - crlf_count in if ltb lf_count crlf_count then crlf else lf

pub detect_line_ending : Bytes → Option Bytes
detect_line_ending source = elim (sample_of source) [
  | none ↦ none
  | some sample ↦ some (line_ending_of sample)
]

-- `&source[body_start + 1..]` is read behind a test that it starts on a character.
unfoldable pub body_starts_with_anchor_sentinel : Bytes → ℕ → Bool
body_starts_with_anchor_sentinel source body_start =
    if leb (length source) (body_start + 1)
    then false
    else elim (slice source (body_start + 1) (length source)) [
      | none ↦ false
      | some inner ↦ elim (strip_prefix (trim_start inner) instrument_anchor_prefix) [
        | none ↦ false
        | some rest ↦ contains rest (codes "*/")
      ]
    ]

abbrev is_le : Ordering → Bool
is_le Ordering.gt = false
is_le _ = true

-- `a.cmp(b)` is not `Greater`: by body start, then body end, then name.
pub candidate_le : Candidate → Candidate → Bool
candidate_le a b = elim (compare a.body_byte_range.start b.body_byte_range.start) [
  | Ordering.lt ↦ true
  | Ordering.gt ↦ false
  | Ordering.eq ↦ elim (compare a.body_byte_range.stop b.body_byte_range.stop) [
    | Ordering.lt ↦ true
    | Ordering.gt ↦ false
    | Ordering.eq ↦ is_le (compare_bytes a.function_name b.function_name)
  ]
]

edit_le : ByteEdit → ByteEdit → Bool
edit_le a b = elim (compare a.start b.start) [
  | Ordering.lt ↦ true
  | Ordering.gt ↦ false
  | Ordering.eq ↦ leb a.stop b.stop
]

abbrev pub insertion : ℕ → Bytes → ByteEdit
insertion offset text = record { start = offset; stop = offset; replacement = text }

-- What the loop body does with a candidate: it is skipped, or its edits are pushed.
pub data Verdict : Type 0 where
  skip : SkipReason → Verdict
  accept : List ByteEdit → Verdict

-- Step 7 of the loop body, where every check on the body's start has passed.
emit_edits : Bytes → Emitter → Bytes → Candidate → Verdict
emit_edits source emitter line_ending c =
    let insert_offset = c.body_byte_range.start + 1 in
    let prefix = emitter.emit_body_prefix c line_ending in
    let suffix = emitter.emit_body_suffix c line_ending in
    let suffix_offset = c.body_byte_range.stop - 1 in
    if not (length suffix == 0)
    then (if leb suffix_offset insert_offset || not (is_char_boundary source suffix_offset)
        then skip (SkipReason.invalid_utf8_boundary suffix_offset)
        else if not (byte_at source suffix_offset == b'}')
        then skip (SkipReason.missing_opening_brace suffix_offset (byte_at source suffix_offset))
        else accept (insertion insert_offset prefix ∷ insertion suffix_offset suffix ∷ []))
    else accept (insertion insert_offset prefix ∷ [])

abbrev overlaps : Option Range → Range → Bool
overlaps none r = false
overlaps (some prev) r = ltb r.start prev.stop

abbrev previous_of : Option Range → Range → Range
previous_of none r = r
previous_of (some prev) r = prev

-- Checks 0 to 6, in the order of the loop body.
pub judge : Bytes → Emitter → Bytes → Option Range → Candidate → Verdict
judge source emitter line_ending last_valid_range c =
    let r = c.body_byte_range in
    if c.is_async && not emitter.handles_async
    then skip SkipReason.async_deferred
    else if leb r.stop r.start || ltb (length source) r.stop
    then skip (SkipReason.out_of_bounds r (length source))
    else if not (is_char_boundary source r.start)
    then skip (SkipReason.invalid_utf8_boundary r.start)
    else if not (is_char_boundary source r.stop)
    then skip (SkipReason.invalid_utf8_boundary r.stop)
    else if overlaps last_valid_range r
    then skip (SkipReason.overlapping_with_previous (previous_of last_valid_range r) r)
    else if not (byte_at source r.start == b'{')
    then skip (SkipReason.missing_opening_brace r.start (byte_at source r.start))
    else if body_starts_with_anchor_sentinel source r.start
    then skip SkipReason.already_instrumented
    else if not (is_char_boundary source (r.start + 1))
    then skip (SkipReason.invalid_utf8_boundary (r.start + 1))
    else emit_edits source emitter line_ending c

abbrev pub record_skip : Candidate → SkipReason → SkippedCandidate
record_skip c reason = record {
  function_name = c.function_name;
  candidate_range = c.body_byte_range;
  reason = reason;
}

-- The loop over the sorted candidates, with the last accepted range as its variable.
pub plan_candidates :
    Bytes → Emitter → Bytes → Option Range → List Candidate → List ByteEdit × List SkippedCandidate
plan_candidates source emitter line_ending prev [] = ([], [])
plan_candidates source emitter line_ending prev (c ∷ cs) =
    let skipped = plan_candidates source emitter line_ending prev cs in
    let accepted = plan_candidates source emitter line_ending (some c.body_byte_range) cs in
    elim (judge source emitter line_ending prev c) [
      | skip reason ↦ (skipped.0, record_skip c reason ∷ skipped.1)
      | accept edits ↦ (edits ++ accepted.0, accepted.1)
    ]

abbrev pub with_context_open : Bytes
with_context_open = codes "opentelemetry::trace::FutureExt::with_context("

abbrev pub with_context_close : Bytes
with_context_close = codes ", opentelemetry::Context::current())"

-- The edits of one spawn site, which is passed over where its range is malformed.
pub spawn_edits : Bytes → SpawnSite → List ByteEdit
spawn_edits source spawn =
    let r = spawn.arg_byte_range in
    if leb r.stop r.start || ltb (length source) r.stop
    then []
    else if not (is_char_boundary source r.start) || not (is_char_boundary source r.stop)
    then []
    else insertion r.start with_context_open ∷ insertion r.stop with_context_close ∷ []

pub all_spawn_edits : Bytes → List SpawnSite → List ByteEdit
all_spawn_edits source [] = []
all_spawn_edits source (s ∷ ss) = spawn_edits source s ++ all_spawn_edits source ss

-- `edits.windows(2)`: the first two neighbours that overlap.
first_overlap : List ByteEdit → Option Range
first_overlap [] = none
first_overlap (a ∷ []) = none
first_overlap (a ∷ b ∷ es) =
    let rest = first_overlap (b ∷ es) in
    if ltb b.start a.stop then some (record { start = a.start; stop = b.stop }) else rest

-- All edits of a file before validation, and the candidates that were skipped.
pub plan_edits :
    Bytes
    → Emitter
    → Bytes
    → List Candidate
    → List SpawnSite
    → List ByteEdit × List SkippedCandidate
plan_edits source emitter line_ending candidates spawn_sites =
    let planned = plan_candidates source emitter line_ending none (sort candidate_le candidates) in
    let spawns = if emitter.handles_tokio_spawn then all_spawn_edits source spawn_sites else [] in
    (sort edit_le (planned.0 ++ spawns), planned.1)

pub build_with_emitter_and_spawns :
    Bytes
    → List Candidate
    → List SpawnSite
    → Emitter
    → Option (Result TransformationPlan TransformError)
build_with_emitter_and_spawns source candidates spawn_sites emitter =
    elim (detect_line_ending source) [
      | none ↦ none
      | some line_ending ↦
          let planned = plan_edits source emitter line_ending candidates spawn_sites in
          elim (first_overlap planned.0) [
            | some range ↦ some (err (TransformError.out_of_bounds range (length source)))
            | none ↦ some (ok (record { edits = planned.0; skipped = planned.1 }))
          ]
    ]

pub build_with_emitter :
    Bytes → List Candidate → Emitter → Option (Result TransformationPlan TransformError)
build_with_emitter source candidates emitter =
    build_with_emitter_and_spawns source candidates [] emitter

-- ===== src/Transform/Build/Walk.antt =====
-- The loop of `TransformationPlan::build_with_emitter_and_spawns`, as a description of what becomes of
-- each candidate.
use rust_compile_time_instru.Prelude.{
  ℕ, ◌+◌, ◌-◌, ◌≤◌, ◌<◌, ◌≡◌, refl, ◌≢◌, ◌⊎◌, inl, inr, Bool, true, false, Option, none, some, List,
  [], ◌∷◌, ◌++◌, arith, if◌then◌else◌, length,
}
use rust_compile_time_instru.Bytes.{Bytes, byte_at, is_char_boundary}
use rust_compile_time_instru.Candidate.{Candidate, Range}
use rust_compile_time_instru.Transform.{SkipReason, SkippedCandidate, Emitter, ByteEdit}
use rust_compile_time_instru.Transform.Build.{
  Verdict, accept, skip, emit_edits, judge, plan_candidates, body_starts_with_anchor_sentinel,
  insertion, all_spawn_edits,
}

-- Where the last accepted body ends.
abbrev pub limit : Option Range → ℕ
limit none = 0
limit (some prev) = prev.stop

module _ (source : Bytes) (emitter : Emitter) (nl : Bytes) where
  -- The reason holds of a candidate behind the accepted body `prev`.
  abbrev pub Holds : Option Range → Candidate → SkipReason → Type 0
  Holds prev c (SkipReason.out_of_bounds range n) =
      (range ≡ c.body_byte_range)
      × (n ≡ length source)
      × ((c.body_byte_range.stop ≤ c.body_byte_range.start)
          ⊎ (length source < c.body_byte_range.stop))
  Holds prev c (SkipReason.invalid_utf8_boundary offset) =
      ((is_char_boundary source offset ≡ false)
        × ((offset ≡ c.body_byte_range.start)
            ⊎ (offset ≡ c.body_byte_range.stop)
            ⊎ (offset ≡ c.body_byte_range.start + 1)
            ⊎ (offset ≡ c.body_byte_range.stop - 1)))
      ⊎ ((offset ≡ c.body_byte_range.stop - 1) × (offset ≤ c.body_byte_range.start + 1))
  Holds prev c (SkipReason.missing_opening_brace offset found) =
      (found ≡ byte_at source offset)
      × (((offset ≡ c.body_byte_range.start) × (found ≢ b'{'))
          ⊎ ((offset ≡ c.body_byte_range.stop - 1) × (found ≢ b'}')))
  Holds prev c (SkipReason.overlapping_with_previous previous current) =
      (prev ≡ some previous)
      × (current ≡ c.body_byte_range)
      × (c.body_byte_range.start < previous.stop)
  Holds prev c SkipReason.already_instrumented =
      body_starts_with_anchor_sentinel source c.body_byte_range.start ≡ true
  Holds prev c SkipReason.async_deferred = (c.is_async ≡ true) × (emitter.handles_async ≡ false)

  -- What is inserted into an accepted body: the prefix behind its first byte, and a suffix, if there is
  -- one, before its last.
  abbrev pub IsWritten : Candidate → List ByteEdit → Type 0
  IsWritten c es =
      ((length (emitter.emit_body_suffix c nl) ≡ 0)
        × (es ≡ insertion (c.body_byte_range.start + 1) (emitter.emit_body_prefix c nl) ∷ []))
      ⊎ ((length (emitter.emit_body_suffix c nl) ≢ 0)
          × (c.body_byte_range.start + 1 < c.body_byte_range.stop - 1)
          × (is_char_boundary source (c.body_byte_range.stop - 1) ≡ true)
          × (byte_at source (c.body_byte_range.stop - 1) ≡ b'}')
          × (es
              ≡ insertion (c.body_byte_range.start + 1) (emitter.emit_body_prefix c nl)
                ∷ insertion (c.body_byte_range.stop - 1) (emitter.emit_body_suffix c nl)
                ∷ []))

  -- An accepted body behind `prev`, and its edits.
  pub record IsAccepted (prev : Option Range) (c : Candidate) (es : List ByteEdit) : Type 0 where
    pub handled : c.is_async ≡ true → emitter.handles_async ≡ true
    pub proper : c.body_byte_range.start < c.body_byte_range.stop
    pub inside : c.body_byte_range.stop ≤ length source
    pub starts_character : is_char_boundary source c.body_byte_range.start ≡ true
    pub stops_character : is_char_boundary source c.body_byte_range.stop ≡ true
    pub behind : limit prev ≤ c.body_byte_range.start
    pub brace : byte_at source c.body_byte_range.start ≡ b'{'
    pub unanchored : body_starts_with_anchor_sentinel source c.body_byte_range.start ≡ false
    pub brace_ends : is_char_boundary source (c.body_byte_range.start + 1) ≡ true
    pub written : IsWritten c es

  -- Each candidate in turn is skipped for a reason that holds, or accepted with its edits.
  abbrev pub Walk : Option Range → List Candidate → List ByteEdit → List SkippedCandidate → Type 0
  Walk prev [] es ss = (es ≡ []) × (ss ≡ [])
  Walk prev (c ∷ cs) es ss =
      ((reason : SkipReason) × (later : List SkippedCandidate) × (ss
          ≡ (record {
            function_name = c.function_name;
            candidate_range = c.body_byte_range;
            reason = reason;
          })
            ∷ later)
        × Holds prev c reason
        × Walk prev cs es later)
      ⊎ ((own : List ByteEdit) × (later : List ByteEdit) × (es ≡ own ++ later)
          × IsAccepted prev c own
          × Walk (some c.body_byte_range) cs later ss)

  emit_edits-Holds :
      (prev : Option Range) (c : Candidate) (reason : SkipReason)
      → emit_edits source emitter nl c ≡ skip reason
      → Holds prev c reason
  unfolding emit_edits
  emit_edits-Holds prev c (SkipReason.out_of_bounds range n) h = ground arith
  emit_edits-Holds prev c (SkipReason.invalid_utf8_boundary offset) h = ground arith
  emit_edits-Holds prev c (SkipReason.missing_opening_brace offset found) h = ground arith
  emit_edits-Holds prev c (SkipReason.overlapping_with_previous p q) h = ground arith
  emit_edits-Holds prev c SkipReason.already_instrumented h = ground arith
  emit_edits-Holds prev c SkipReason.async_deferred h = ground arith

  judge-Holds :
      (prev : Option Range) (c : Candidate) (reason : SkipReason)
      → judge source emitter nl prev c ≡ skip reason
      → Holds prev c reason
  unfolding judge
  judge-Holds prev c (SkipReason.out_of_bounds range n) h =
      ground (arith, emit_edits-Holds prev c (SkipReason.out_of_bounds range n))
  judge-Holds prev c (SkipReason.invalid_utf8_boundary offset) h =
      ground (arith, emit_edits-Holds prev c (SkipReason.invalid_utf8_boundary offset))
  judge-Holds prev c (SkipReason.missing_opening_brace offset found) h =
      ground (arith, emit_edits-Holds prev c (SkipReason.missing_opening_brace offset found))
  judge-Holds none c (SkipReason.overlapping_with_previous p q) h =
      ground (arith, emit_edits-Holds none c (SkipReason.overlapping_with_previous p q))
  judge-Holds (some prev) c (SkipReason.overlapping_with_previous p q) h =
      ground (arith, emit_edits-Holds (some prev) c (SkipReason.overlapping_with_previous p q))
  judge-Holds prev c SkipReason.already_instrumented h =
      ground (arith, emit_edits-Holds prev c SkipReason.already_instrumented)
  judge-Holds prev c SkipReason.async_deferred h =
      ground (arith, emit_edits-Holds prev c SkipReason.async_deferred)

  emit_edits-IsWritten :
      (c : Candidate) (es : List ByteEdit)
      → emit_edits source emitter nl c ≡ accept es
      → IsWritten c es
  unfolding emit_edits
  emit_edits-IsWritten c es h = ground arith

  behind_of :
      (prev : Option Range) (c : Candidate) (es : List ByteEdit)
      → judge source emitter nl prev c ≡ accept es
      → limit prev ≤ c.body_byte_range.start
  unfolding judge
  behind_of none c es h = ground arith
  behind_of (some prev) c es h = ground arith

  judge-IsAccepted :
      (prev : Option Range) (c : Candidate) (es : List ByteEdit)
      → judge source emitter nl prev c ≡ accept es
      → IsAccepted prev c es
  unfolding judge
  judge-IsAccepted prev c es h = record {
    handled = λ a. ground arith;
    proper = ground arith;
    inside = ground arith;
    starts_character = ground arith;
    stops_character = ground arith;
    behind = behind_of prev c es h;
    brace = ground arith;
    unanchored = ground arith;
    brace_ends = ground arith;
    written =
        let e : emit_edits source emitter nl c ≡ accept es = ground arith in
        emit_edits-IsWritten c es e;
  }

  pub plan_candidates-Walk :
      (prev : Option Range) (cs : List Candidate)
      → Walk prev cs
          ((plan_candidates source emitter nl prev cs).0)
          ((plan_candidates source emitter nl prev cs).1)
  unfolding plan_candidates
  plan_candidates-Walk prev [] = (refl, refl)
  plan_candidates-Walk prev (c ∷ cs) =
      by_verdict (judge source emitter nl prev c) refl (plan_candidates-Walk prev cs)
        (plan_candidates-Walk (some c.body_byte_range) cs)
    where
      by_verdict :
          (v : Verdict)
          → judge source emitter nl prev c ≡ v
          → Walk prev cs
              ((plan_candidates source emitter nl prev cs).0)
              ((plan_candidates source emitter nl prev cs).1)
          → Walk
              (some c.body_byte_range)
              cs
              ((plan_candidates source emitter nl (some c.body_byte_range) cs).0)
              ((plan_candidates source emitter nl (some c.body_byte_range) cs).1)
          → Walk prev
              (c ∷ cs)
              ((plan_candidates source emitter nl prev (c ∷ cs)).0)
              ((plan_candidates source emitter nl prev (c ∷ cs)).1)
      by_verdict (skip reason) e skipped accepted =
          rw (e, plan_candidates) (inl (reason, _, refl, judge-Holds prev c reason e, skipped))
      by_verdict (accept es) e skipped accepted =
          rw (e, plan_candidates) (inr (es, _, refl, judge-IsAccepted prev c es e, accepted))

pub no_spawn_edits :
    (source : Bytes) (b : Bool) → (if b then all_spawn_edits source [] else []) ≡ []
unfolding all_spawn_edits
no_spawn_edits source true = refl
no_spawn_edits source false = refl

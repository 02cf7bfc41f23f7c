-- ===== src/Transform.antt =====
-- cargo-instrument/src/transform.rs: the edits of one source file, planned and applied. This file
-- has the data; `Build` plans, `Apply` splices, `Emit` writes the generated code.
pub mod Sort
pub mod Build
pub mod Apply
pub mod Pipeline
pub mod Emit
use rust_compile_time_instru.Prelude.{ℕ, Bool, List}
use rust_compile_time_instru.Bytes.{Bytes, codes}
use rust_compile_time_instru.Candidate.{Candidate, Range}

pub data TransformError : Type 0 where
  in_place_modification_disallowed : (path : Bytes) → TransformError
  invalid_utf8_boundary : (offset : ℕ) (range : Range) → TransformError
  out_of_bounds : (range : Range) (source_len : ℕ) → TransformError
  io : (path message : Bytes) → TransformError

pub data SkipReason : Type 0 where
  out_of_bounds : (range : Range) (source_len : ℕ) → SkipReason
  invalid_utf8_boundary : (offset : ℕ) → SkipReason
  missing_opening_brace : (offset found : ℕ) → SkipReason
  overlapping_with_previous : (previous current : Range) → SkipReason
  already_instrumented : SkipReason
  async_deferred : SkipReason

pub record SkippedCandidate : Type 0 where
  pub function_name : Bytes
  pub candidate_range : Range
  pub reason : SkipReason

abbrev pub instrument_anchor_prefix : Bytes
instrument_anchor_prefix = codes "/* __cargo_instrument_anchor:"

-- The trait: the two texts, and what the emitter can handle.
pub record Emitter : Type 0 where
  pub emit_body_prefix : Candidate → Bytes → Bytes
  pub emit_body_suffix : Candidate → Bytes → Bytes
  pub handles_async : Bool
  pub handles_tokio_spawn : Bool

pub record ByteEdit : Type 0 where
  pub start : ℕ
  pub stop : ℕ
  pub replacement : Bytes

pub record TransformationPlan : Type 0 where
  pub edits : List ByteEdit
  pub skipped : List SkippedCandidate

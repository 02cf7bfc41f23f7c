-- ===== src/Transform/Build/Examples.antt =====
-- A source file of two functions, of which one already has an anchor.
use rust_compile_time_instru.Prelude.{ℕ, ◌≡◌, ◌≢◌, ◌↔◌, false, none, some, List, [], ◌∷◌, err}
use rust_compile_time_instru.Bytes.{Bytes, codes}
use rust_compile_time_instru.Candidate.{Candidate, free}
use rust_compile_time_instru.Transform.{TransformError, SkipReason, TransformationPlan}
use rust_compile_time_instru.Transform.Emit.{sentinel_emitter, sentinel_prefix}
use rust_compile_time_instru.Transform.Build.{
  insertion, record_skip, lf, build_with_emitter_and_spawns,
}
use rust_compile_time_instru.Transform.Build.Total.{IsCutInside, build_outcome}

abbrev two_functions : Bytes
two_functions = codes "fn f() { 1 } fn g() { /* __cargo_instrument_anchor: */ }"

abbrev function_at : Bytes → ℕ → ℕ → Candidate
function_at name a b = record {
  function_name = name;
  source_file = codes "lib.rs";
  byte_range = record { start = a; stop = b };
  body_byte_range = record { start = a; stop = b };
  kind = free;
  is_async = false;
  is_generic = false;
  has_enclosing_generics = false;
  returns_result = false;
  returns_mut_reference = false;
  returns_reference_or_lifetime = false;
}

abbrev found : List Candidate
found = function_at (codes "g") 20 56 ∷ function_at (codes "f") 7 12 ∷ []

abbrev planned : TransformationPlan
planned = record {
  edits = insertion 8 (sentinel_prefix (function_at (codes "f") 7 12) lf) ∷ [];
  skipped = record_skip (function_at (codes "g") 20 56) SkipReason.already_instrumented ∷ [];
}

build_outcome_example :
    ((build_with_emitter_and_spawns two_functions found [] sentinel_emitter ≡ none)
      ↔ IsCutInside two_functions)
    × ((e : TransformError)
        → build_with_emitter_and_spawns two_functions found [] sentinel_emitter ≢ some (err e))
build_outcome_example = build_outcome two_functions found [] sentinel_emitter

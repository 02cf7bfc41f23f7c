-- ===== src/Transform/Build/Skips.antt =====
-- What a plan says of every candidate.
use mathlib.Core.List.{Perm}
use rust_compile_time_instru.Prelude.{ℕ, ◌≡◌, none, some, List}
use rust_compile_time_instru.Bytes.{Bytes}
use rust_compile_time_instru.Candidate.{Candidate}
use rust_compile_time_instru.Transform.{Emitter, TransformationPlan}
use rust_compile_time_instru.Transform.Sort.{Ascending}
use rust_compile_time_instru.Transform.Build.{detect_line_ending}
use rust_compile_time_instru.Transform.Build.Walk.{Walk}

abbrev pub body_start : Candidate → ℕ
body_start c = c.body_byte_range.start

-- The candidates, put in the order of their bodies, are each skipped or accepted.
abbrev pub AccountsFor : Bytes → Emitter → List Candidate → TransformationPlan → Type 0
AccountsFor source emitter cs plan =
    (nl : Bytes) × (sorted : List Candidate) × (detect_line_ending source ≡ some nl)
    × Perm cs sorted
    × Ascending body_start 0 sorted
    × Walk source emitter nl none sorted plan.edits plan.skipped

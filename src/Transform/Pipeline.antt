-- ===== src/Transform/Pipeline.antt =====
-- The in-memory transformation of cargo-instrument/src/transform.rs: plan, then apply.
use rust_compile_time_instru.Prelude.{
  ◌≡◌, ◌∙◌, ap, Option, none, some, List, Result, ok, err, Option-cases, inl, inr,
}
use rust_compile_time_instru.Bytes.{Bytes}
use rust_compile_time_instru.Candidate.{Candidate, SpawnSite}
use rust_compile_time_instru.Transform.{Emitter, TransformationPlan, TransformError}
use rust_compile_time_instru.Transform.Build.{
  build_with_emitter, build_with_emitter_and_spawns, detect_line_ending,
}
use rust_compile_time_instru.Transform.Build.Edits.{plan_edits-FitsIn, plan_edits-Ascending}
use rust_compile_time_instru.Transform.Build.Total.{
  IsCutInside, planned_with, build_of_line_ending, detect-none,
}
use rust_compile_time_instru.Transform.Apply.{apply}
use rust_compile_time_instru.Transform.Apply.Woven.{Woven, apply-Woven}

-- `let plan = build(..)?; plan.apply(source)`
unfoldable pub apply_planned :
    Option (Result TransformationPlan TransformError) → Bytes → Option (Result Bytes TransformError)
apply_planned none source = none
apply_planned (some (err e)) source = some (err e)
apply_planned (some (ok plan)) source = apply plan source

-- The spawn-aware form, which the file transformation uses with the caller's emitter.
unfoldable pub transform_with_spawns :
    Bytes → List Candidate → List SpawnSite → Emitter → Option (Result Bytes TransformError)
transform_with_spawns source cs ss emitter =
    apply_planned (build_with_emitter_and_spawns source cs ss emitter) source

unfoldable pub transform_source_str_with_emitter :
    Bytes → List Candidate → Emitter → Option (Result Bytes TransformError)
transform_source_str_with_emitter source cs emitter =
    apply_planned (build_with_emitter source cs emitter) source

-- Unless the source is cut inside a character, planning and applying succeed, whatever the
-- candidates, the spawn sites and the emitter are, and the output is the source, byte for byte, with
-- each planned text inserted at its own offset and nothing removed.
pub transform_inserts :
    (source : Bytes) (cs : List Candidate) (ss : List SpawnSite) (emitter : Emitter)
    → ¬ IsCutInside source
    → (plan : TransformationPlan) × (out : Bytes) × (build_with_emitter_and_spawns source cs ss
          emitter
        ≡ some (ok plan))
      × (transform_with_spawns source cs ss emitter ≡ some (ok out))
      × Woven 0 source plan.edits out
unfolding transform_with_spawns apply_planned
transform_inserts source cs ss emitter uncut = elim (Option-cases (detect_line_ending source)) [
  | inl panics ↦ absurd (uncut (detect-none source panics))
  | inr (nl, named) ↦
      let plan = planned_with source cs ss emitter nl in
      let built = build_of_line_ending source cs ss emitter nl named in
      let (out, applied, woven) =
        apply-Woven source plan (plan_edits-FitsIn source emitter nl cs ss)
          (plan_edits-Ascending source emitter nl cs ss) in
      (plan, out, built, ap (λ b. apply_planned b source) built ∙ applied, woven)
]

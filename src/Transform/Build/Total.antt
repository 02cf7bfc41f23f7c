-- ===== src/Transform/Build/Total.antt =====
-- Planning never reports an error, and it panics exactly where the line-ending sample is cut inside
-- a character.
use rust_compile_time_instru.Prelude.{
  ℕ, ◌<◌, ◌≡◌, ◌↔◌, inl, inr, ◌≢◌, refl, false, none, some, List, [], ◌∷◌, All, length, arith, err,
  Option-cases, sym, ◌∙◌, ok,
}
use rust_compile_time_instru.Bytes.{Bytes, is_char_boundary}
use rust_compile_time_instru.Bytes.Slices.{slice-zero_cut, slice-zero_none}
use rust_compile_time_instru.Candidate.{Candidate, SpawnSite}
use rust_compile_time_instru.Transform.Sort.{Ascending}
use rust_compile_time_instru.Transform.{Emitter, ByteEdit, TransformError, TransformationPlan}
use rust_compile_time_instru.Transform.Build.{
  detect_line_ending, sample_of, plan_edits, first_overlap, build_with_emitter_and_spawns,
}
use rust_compile_time_instru.Transform.Build.Edits.{FitsIn, plan_edits-FitsIn, plan_edits-Ascending}

-- Neighbouring insertions in ascending order never overlap.
first_overlap-none :
    (source : Bytes) (k : ℕ) (es : List ByteEdit)
    → All (FitsIn source) es
    → Ascending (λ e. e.start) k es
    → first_overlap es ≡ none
unfolding first_overlap
first_overlap-none source k [] fits up = refl
first_overlap-none source k (a ∷ []) fits up = refl
first_overlap-none source k (a ∷ b ∷ es) fits up =
    ground (arith, first_overlap-none source a.start (b ∷ es) fits.1 up.1)

-- The sample of a long source is cut inside a character.
pub record IsCutInside (source : Bytes) : Type 0 where
  pub long : 4096 < length source
  pub inside : is_char_boundary source 4096 ≡ false

module _ (source : Bytes) (cs : List Candidate) (ss : List SpawnSite) (emitter : Emitter) where
  abbrev pub planned_with : Bytes → TransformationPlan
  planned_with nl = record {
    edits = (plan_edits source emitter nl cs ss).0;
    skipped = (plan_edits source emitter nl cs ss).1;
  }

  pub build_of_line_ending :
      (nl : Bytes)
      → detect_line_ending source ≡ some nl
      → build_with_emitter_and_spawns source cs ss emitter ≡ some (ok (planned_with nl))
  unfolding build_with_emitter_and_spawns
  build_of_line_ending nl h =
      let none_found =
        first_overlap-none source 0 _ (plan_edits-FitsIn source emitter nl cs ss)
          (plan_edits-Ascending source emitter nl cs ss) in
      rw (h, none_found, build_with_emitter_and_spawns)

pub detect-none : (source : Bytes) → detect_line_ending source ≡ none → IsCutInside source
unfolding detect_line_ending sample_of
detect-none source h = ground (arith, slice-zero_cut source 4096)

detect-cut : (source : Bytes) → IsCutInside source → detect_line_ending source ≡ none
unfolding detect_line_ending sample_of
detect-cut source h = ground (arith, slice-zero_none source 4096)

-- Planning panics exactly where the source is longer than 4096 bytes and byte 4096 is inside a
-- character; in every other case it returns a plan, so that its `OutOfBounds` error for overlapping
-- edits is never reported, whatever the candidates, the spawn sites and the emitter are.
pub build_outcome :
    (source : Bytes) (cs : List Candidate) (ss : List SpawnSite) (emitter : Emitter)
    → ((build_with_emitter_and_spawns source cs ss emitter ≡ none) ↔ IsCutInside source)
      × ((e : TransformError) → build_with_emitter_and_spawns source cs ss emitter ≢ some (err e))
unfolding build_with_emitter_and_spawns
build_outcome source cs ss emitter = elim (Option-cases (detect_line_ending source)) [
  | inl panics ↦ (
    (λ h. detect-none source panics, λ h. rw (panics, build_with_emitter_and_spawns)),
    λ e h. let bad : none ≡ some (err e) = sym (built panics) ∙ h in cc,
  )
  | inr (nl, named) ↦
      let plan = build_of_line_ending source cs ss emitter nl named in
      (
        (λ h. absurd (cc (plan, h)), λ cut. absurd (cc (detect-cut source cut, named))),
        λ e h. cc (plan, h),
      )
]
  where
    built :
        detect_line_ending source ≡ none → build_with_emitter_and_spawns source cs ss emitter ≡ none
    built p = rw (p, build_with_emitter_and_spawns)

pub build_inversion :
    (source : Bytes) (cs : List Candidate) (ss : List SpawnSite) (emitter : Emitter)
    (plan : TransformationPlan)
    → build_with_emitter_and_spawns source cs ss emitter ≡ some (ok plan)
    → (nl : Bytes) × (plan ≡ planned_with source cs ss emitter nl)
build_inversion source cs ss emitter plan h = elim (Option-cases (detect_line_ending source)) [
  | inl panics ↦
      absurd (cc ((build_outcome source cs ss emitter).0.1 (detect-none source panics), h))
  | inr (nl, named) ↦ (nl, cc (build_of_line_ending source cs ss emitter nl named, h))
]

-- The same, with the line ending that the planning has found.
pub build_named :
    (source : Bytes) (cs : List Candidate) (ss : List SpawnSite) (emitter : Emitter)
    (plan : TransformationPlan)
    → build_with_emitter_and_spawns source cs ss emitter ≡ some (ok plan)
    → (nl : Bytes) × (detect_line_ending source ≡ some nl)
      × (plan ≡ planned_with source cs ss emitter nl)
build_named source cs ss emitter plan h = elim (Option-cases (detect_line_ending source)) [
  | inl panics ↦
      absurd (cc ((build_outcome source cs ss emitter).0.1 (detect-none source panics), h))
  | inr (nl, named) ↦ (nl, named, cc (build_of_line_ending source cs ss emitter nl named, h))
]

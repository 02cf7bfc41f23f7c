-- ===== src/Session/Register/Unique.antt =====
-- The artifacts of the plan stay distinguishable while Cargo's messages are read.
use rust_compile_time_instru.Prelude.{
  ◌≤◌, String, ◌≡◌, refl, sym, ◌∙◌, ◌≢◌, inl, inr, Bool, true, false, Option, none, some, List, [],
  ◌∷◌, ◌++◌, arith, eq_iff, str_eq, Bool-cases, Option-cases, length, any, All, All-append, Result,
  err,
}
use rust_compile_time_instru.Session.Rustc.{
  R4Profile, same_profile, same_target, rustc_target, rustc_profile, extern_crate_path,
}
use rust_compile_time_instru.Session.Plan.{SessionPlan, R4NativeOtelArtifact}
use rust_compile_time_instru.Session.{Files, filter, lookup, package_id_for_source}
use rust_compile_time_instru.Session.Otel.{
  OtelError, multiple_artifacts, artifact_gone, check_matches, fits, check_artifact,
  r4_native_otel_artifact_for,
}
use rust_compile_time_instru.Session.Messages.{Lines, CaptureError, Gathered, gather}
use rust_compile_time_instru.Session.Register.{
  is_empty, Package, versions_from, values, same_r4, register, start, add_gathered_r4,
  add_r4_artifacts_from_cargo_json,
}

module _ {A : Type 0} (same : A → A → Bool) where
  -- No two of the list can be taken for each other.
  unfoldable pub IsUnique : List A → Type 0
  IsUnique [] = Unit
  IsUnique (a ∷ known) = (any (same a) known ≡ false) × IsUnique known

  any-last :
      (p : A → Bool) (xs : List A) (a : A)
      → any p xs ≡ false
      → p a ≡ false
      → any p (xs ++ (a ∷ [])) ≡ false
  any-last p [] a h k = ground arith
  any-last p (x ∷ xs) a h k = let i = any-last p xs a in ground arith

  last-IsUnique :
      (known : List A) (a : A)
      → any (λ k. same k a) known ≡ false
      → IsUnique known
      → IsUnique (known ++ (a ∷ []))
  unfolding IsUnique
  last-IsUnique [] a h u = (refl, tt)
  last-IsUnique (k ∷ known) a h u =
      (any-last (same k) known a u.0 (ground arith), last-IsUnique known a (ground arith) u.1)

  register-IsUnique :
      (present : A → Bool) (errors : A → CaptureError × CaptureError) (artifacts known : List A)
      → IsUnique known
      → IsUnique ((register present same errors artifacts known).0)
  unfolding register
  register-IsUnique present errors [] known u = u
  register-IsUnique present errors (a ∷ artifacts) known u = elim (Bool-cases (present a)) [
    | inr p ↦ rw p u
    | inl p ↦ elim (Bool-cases (any (λ k. same k a) known)) [
      | inl q ↦ rw (p, q) u
      | inr q ↦
          rw (p, q)
            (register-IsUnique present errors artifacts (known ++ (a ∷ []))
              (last-IsUnique known a q u))
    ]
  ]

  register-present :
      (present : A → Bool) (errors : A → CaptureError × CaptureError) (artifacts known : List A)
      → All (λ a. present a ≡ true) known
      → All (λ a. present a ≡ true) ((register present same errors artifacts known).0)
  unfolding register
  register-present present errors [] known h = h
  register-present present errors (a ∷ artifacts) known h = elim (Bool-cases (present a)) [
    | inr p ↦ rw p h
    | inl p ↦ elim (Bool-cases (any (λ k. same k a) known)) [
      | inl q ↦ rw (p, q) h
      | inr q ↦
          rw (p, q)
            (register-present present errors artifacts (known ++ (a ∷ []))
              (All-append (λ x. present x ≡ true) known (a ∷ []) h (p, tt)))
    ]
  ]

  none_else :
      (p : A → Bool) (a : A) (known : List A)
      → ((b : A) → p b ≡ true → same a b ≡ true)
      → any (same a) known ≡ false
      → filter p known ≡ []
  unfolding filter
  none_else p a [] alike h = refl
  none_else p a (k ∷ known) alike h =
      let s = alike k in let i = none_else p a known alike in ground arith

  at_most_one :
      (p : A → Bool) (known : List A)
      → ((a b : A) → p a ≡ true → p b ≡ true → same a b ≡ true)
      → IsUnique known
      → length (filter p known) ≤ 1
  unfolding filter IsUnique
  at_most_one p [] alike u = omega arith
  at_most_one p (a ∷ known) alike u = elim (Bool-cases (p a)) [
    | inl h ↦ let n = none_else p a known (λ b. alike a b h) u.0 in ground arith
    | inr h ↦ let i = at_most_one p known alike u.1 in ground arith
  ]

text_alike : (a b c : String) → str_eq a c ≡ true → str_eq b c ≡ true → str_eq a b ≡ true
text_alike a b c h k = (eq_iff a b).1 ((eq_iff a c).0 h ∙ sym ((eq_iff b c).0 k))

target_alike :
    (a b c : Option String)
    → same_target a c ≡ true
    → same_target b c ≡ true
    → same_target a b ≡ true
target_alike none none c h k = refl
target_alike (some a) (some b) (some c) h k = text_alike a b c h k
target_alike none (some b) none h k = absurd cc
target_alike none (some b) (some c) h k = absurd cc
target_alike (some a) none none h k = absurd cc
target_alike (some a) none (some c) h k = absurd cc
target_alike (some a) (some b) none h k = absurd cc

profile_alike :
    (a b c : R4Profile)
    → same_profile a c ≡ true
    → same_profile b c ≡ true
    → same_profile a b ≡ true
profile_alike a b c h k = let t = text_alike a.opt_level b.opt_level c.opt_level in ground arith

fits_alike :
    (otel : String) (target : Option String) (profile : R4Profile) (a b : R4NativeOtelArtifact)
    → fits otel target profile a ≡ true
    → fits otel target profile b ≡ true
    → same_r4 a b ≡ true
fits_alike otel target profile a b h k =
    let i = text_alike a.package_id b.package_id otel in
    let t = target_alike a.target b.target target in
    let p = profile_alike a.profile b.profile profile in ground arith

-- Artifacts that cannot be taken for each other, whose files are present.
abbrev pub IsRegistry : Files → List R4NativeOtelArtifact → Type 0
IsRegistry files known = IsUnique same_r4 known × All (λ a. files.is_file a.rlib_path ≡ true) known

gathered-IsRegistry :
    (files : Files) (plan : SessionPlan) (g : Gathered × Option CaptureError)
    → IsRegistry files plan.r4_native_otel_artifacts
    → IsRegistry files ((add_gathered_r4 files plan g).0).r4_native_otel_artifacts
gathered-IsRegistry files plan (g, some e) h = h
gathered-IsRegistry files plan (g, none) h = (
  register-IsUnique same_r4 _ _ _ plan.r4_native_otel_artifacts h.0,
  register-present same_r4 _ _ _ plan.r4_native_otel_artifacts h.1,
)

add_r4-IsRegistry :
    (files : Files) (packages : List Package) (lines : Lines) (target : Option String)
    (plan : SessionPlan)
    → IsRegistry files plan.r4_native_otel_artifacts
    → IsRegistry files
        ((add_r4_artifacts_from_cargo_json files packages lines target plan).0
          ).r4_native_otel_artifacts
unfolding add_r4_artifacts_from_cargo_json
add_r4-IsRegistry files packages lines target plan h =
    elim (Bool-cases (is_empty (values plan.r4_otel_package_by_dependency))) [
      | inl e ↦ rw e h
      | inr e ↦ rw e (
          gathered-IsRegistry files plan
            (gather (versions_from [] packages) (values plan.r4_otel_package_by_dependency) target
              lines (start plan))
            h)
    ]

All-filter :
    {A : Type 0} (P : A → Type 0) (p : A → Bool) (xs : List A) → All P xs → All P (filter p xs)
unfolding filter
All-filter P p [] h = tt
All-filter P p (x ∷ xs) h = elim (Bool-cases (p x)) [
  | inl e ↦ rw e (h.0, All-filter P p xs h.1)
  | inr e ↦ rw e (All-filter P p xs h.1)
]

-- The two answers that an artifact list of this form excludes.
abbrev IsClear : Result (Option R4NativeOtelArtifact) OtelError → Type 0
IsClear r = (r ≢ err multiple_artifacts) × (r ≢ err artifact_gone)

module _ (files : Files) (plan : SessionPlan) (args : List String) (id : String) where
  check-IsClear :
      (a : R4NativeOtelArtifact)
      → files.is_file a.rlib_path ≡ true
      → IsClear (check_artifact files plan args id a)
  unfolding check_artifact
  check-IsClear a h = elim (Option-cases (extern_crate_path args "opentelemetry")) [
    | inl n ↦ (λ e. absurd (ground arith), λ e. absurd (ground arith))
    | inr p ↦ let q = p.1 in (λ e. absurd (ground arith), λ e. absurd (ground arith))
  ]

  matches-IsClear :
      (xs : List R4NativeOtelArtifact)
      → length xs ≤ 1
      → All (λ a. files.is_file a.rlib_path ≡ true) xs
      → IsClear (check_matches (check_artifact files plan args id) xs)
  matches-IsClear [] short h = (λ e. absurd cc, λ e. absurd cc)
  matches-IsClear (x ∷ []) short h = check-IsClear x h.0
  matches-IsClear (x ∷ y ∷ xs) short h = absurd (omega (arith, short))

resolve-IsClear :
    (files : Files) (plan : SessionPlan) (source : String) (args : List String)
    → IsRegistry files plan.r4_native_otel_artifacts
    → IsClear (r4_native_otel_artifact_for files plan source args)
unfolding r4_native_otel_artifact_for
resolve-IsClear files plan source args h =
    elim (Option-cases (package_id_for_source files plan source)) [
      | inl n ↦ rw (r4_native_otel_artifact_for, n) (λ e. absurd cc, λ e. absurd cc)
      | inr id ↦
          let i = id.1 in
          elim (Option-cases (lookup plan.r4_otel_package_by_dependency (id.0))) [
            | inl n ↦ rw (r4_native_otel_artifact_for, i, n) (λ e. absurd cc, λ e. absurd cc)
            | inr o ↦
                let q = o.1 in
                let p : R4NativeOtelArtifact → Bool =
                  fits (o.0) (rustc_target args) (rustc_profile args) in
                rw (r4_native_otel_artifact_for, i, q)
                  (matches-IsClear files plan args (id.0) (filter p plan.r4_native_otel_artifacts)
                    (at_most_one same_r4 p plan.r4_native_otel_artifacts
                      (fits_alike (o.0) (rustc_target args) (rustc_profile args)) h.0)
                    (All-filter (λ a. files.is_file a.rlib_path ≡ true) p
                      plan.r4_native_otel_artifacts h.1))
          ]
    ]

-- The artifacts of the plan, and what is answered of them.
abbrev pub IsClearPlan : Files → SessionPlan → Type 0
IsClearPlan files plan =
    IsRegistry files plan.r4_native_otel_artifacts
    × ((source : String) (args : List String)
        → IsClear (r4_native_otel_artifact_for files plan source args))

-- Whatever messages of Cargo are read into a plan whose OpenTelemetry artifacts are present and of which no
-- two have the same package, target and profile: this is so of the plan afterwards, also when
-- reading stops with an error, and no compilation is then refused for artifacts that are ambiguous
-- or gone.
pub added_artifacts_clear :
    (files : Files) (packages : List Package) (lines : Lines) (target : Option String)
    (plan : SessionPlan)
    → IsRegistry files plan.r4_native_otel_artifacts
    → IsClearPlan files ((add_r4_artifacts_from_cargo_json files packages lines target plan).0)
added_artifacts_clear files packages lines target plan h =
    let r = add_r4-IsRegistry files packages lines target plan h in
    (r, λ source args. resolve-IsClear files _ source args r)

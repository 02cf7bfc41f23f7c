-- ===== src/Wrapper/Allowed.antt =====
-- When an emitter is chosen for a crate.
use rust_compile_time_instru.Prelude.{
  String, ◌≡◌, refl, subst, ◌⊎◌, inl, inr, true, false, not, ◌&&◌, ◌||◌, Option, none, some, arith,
  if◌then◌else◌, Bool-cases,
}
use rust_compile_time_instru.Bytes.{codes}
use rust_compile_time_instru.Candidate.{DiscoveryReport}
use rust_compile_time_instru.Transform.Emit.Native
use rust_compile_time_instru.Transform.Emit.Trampoline
use rust_compile_time_instru.Transform.Emit.Trampoline.{with_metadata}
use rust_compile_time_instru.Transform.Emit.Boxed.{BoxedEmitter, sentinel, native, trampoline}
use rust_compile_time_instru.Session.Plan.{SessionPlan}
use rust_compile_time_instru.Session.Gates.{is_shim_unsafe}
use rust_compile_time_instru.Wrapper.Choice.{
  Circumstances, is_forbidden, is_application, is_present, tier_2, application_emitter,
  dependency_emitter, choose_emitter,
}

-- What has to hold of a crate before an emitter writes into it.
unfoldable pub IsAllowed : SessionPlan → DiscoveryReport → Circumstances → BoxedEmitter → Type 0
IsAllowed plan report c sentinel =
    (c.use_sentinel ≡ true) ⊎ (is_application c.role ≡ true) × (c.has_otel_shim ≡ false)
IsAllowed plan report c (native e) =
    (is_present c.rlib ≡ true)
    × ((is_application c.role ≡ true) → (c.has_otel ≡ true))
    × (e.crate_name ≡ codes c.crate_name)
    × (e.dependency_lifecycle ≡ (not (is_application c.role) || c.dependency_only))
IsAllowed plan report c (trampoline e) =
    ((is_application c.role ≡ true) × (c.has_otel_shim ≡ true)
      ⊎ (is_application c.role ≡ false)
        × (c.rlib ≡ none)
        × (plan.has_otel_shim_provider ≡ true)
        × (is_shim_unsafe plan c.crate_name ≡ false))
    × (e.crate_name ≡ codes c.crate_name)
    × (e.metadata_v2 ≡ (c.dependency_only && plan.shim_metadata_v2))

absent : (o : Option String) → is_present o ≡ false → o ≡ none
absent none h = refl
absent (some a) h = absurd cc

module _ (plan : SessionPlan) (report : DiscoveryReport) (c : Circumstances) where
  application-IsAllowed :
      (e : BoxedEmitter)
      → is_application c.role ≡ true
      → application_emitter plan report c ≡ some e
      → IsAllowed plan report c e
  unfolding application_emitter IsAllowed tier_2 with_metadata Trampoline.new Native.new
      Native.for_dependency
  application-IsAllowed e r h = elim (Bool-cases (c.has_otel && is_present c.rlib)) [
    | inl k ↦
        let one : native (
              if c.dependency_only
              then Native.for_dependency (codes c.crate_name)
              else Native.new (codes c.crate_name))
            ≡ e =
          ground arith in
        let present : is_present c.rlib ≡ true = ground arith in
        let linked : c.has_otel ≡ true = ground arith in
        subst (IsAllowed plan report c) one (elim (Bool-cases c.dependency_only) [
          | inl d ↦ rw d (present, (λ a. linked), refl, ground arith)
          | inr d ↦ rw d (present, (λ a. linked), refl, ground arith)
        ])
    | inr k ↦ elim (Bool-cases c.has_otel_shim) [
      | inl shim ↦
          let one : tier_2 plan report c ≡ e = ground arith in
          subst (IsAllowed plan report c) one (inl (r, shim), refl, refl)
      | inr shim ↦
          let one : sentinel ≡ e = ground arith in
          subst (IsAllowed plan report c) one (inr (r, shim))
    ]
  ]

  dependency-IsAllowed :
      (e : BoxedEmitter)
      → is_application c.role ≡ false
      → dependency_emitter plan report c ≡ some e
      → IsAllowed plan report c e
  unfolding dependency_emitter IsAllowed tier_2 with_metadata Trampoline.new Native.for_dependency
  dependency-IsAllowed e r h = elim (Bool-cases (is_present c.rlib)) [
    | inl k ↦
        let one : native (Native.for_dependency (codes c.crate_name)) ≡ e = ground arith in
        subst (IsAllowed plan report c) one (k, (λ a. absurd (cc (a, r))), refl, ground arith)
    | inr k ↦
        let one : tier_2 plan report c ≡ e = ground arith in
        let gone = absent c.rlib k in
        subst (IsAllowed plan report c) one (inr (r, gone, ground arith, ground arith), refl, refl)
  ]

  choose_emitter-IsAllowed :
      (e : BoxedEmitter) → choose_emitter plan report c ≡ some e → IsAllowed plan report c e
  unfolding choose_emitter IsAllowed
  choose_emitter-IsAllowed e h = elim (Bool-cases c.use_sentinel) [
    | inl s ↦ let one : sentinel ≡ e = ground arith in subst (IsAllowed plan report c) one (inl s)
    | inr s ↦ elim (Bool-cases (is_application c.role)) [
      | inl r ↦ application-IsAllowed e r (ground arith)
      | inr r ↦ dependency-IsAllowed e r (ground arith)
    ]
  ]

-- An emitter is chosen only for a crate that passed its preflight check, exports no symbol of the
-- runtime, has the standard library and does not forbid unsafe code. The native emitter needs a
-- resolved OpenTelemetry artifact, which an application also has to depend on; the runtime's calls are
-- written into an application that links the runtime, or into a dependency that every target root
-- reaches with it and that has no artifact. The emitter names the crate, and takes the lifecycle
-- of a dependency for all but the applications of an ordinary build.
pub emitter_sound :
    (plan : SessionPlan) (report : DiscoveryReport) (c : Circumstances) (e : BoxedEmitter)
    → choose_emitter plan report c ≡ some e
    → (c.preflight_failed ≡ false)
      × (report.has_colliding_symbols ≡ false)
      × (report.is_no_std ≡ false)
      × (is_forbidden report.unsafe_policy ≡ false)
      × IsAllowed plan report c e
unfolding choose_emitter
emitter_sound plan report c e h = (
  ground arith,
  ground arith,
  ground arith,
  ground arith,
  choose_emitter-IsAllowed plan report c e h,
)

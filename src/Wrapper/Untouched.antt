-- ===== src/Wrapper/Untouched.antt =====
-- The invocations that the wrapper hands to rustc as they are.
use rust_compile_time_instru.Prelude.{
  String, ◌≡◌, refl, ◌∙◌, subst, ◌⊎◌, inl, inr, true, false, none, some, List, [], arith, ok,
}
use rust_compile_time_instru.Sets.{contains}
use rust_compile_time_instru.Graph.{Reach}
use rust_compile_time_instru.Discovery.{
  CompilationUnit, CrateInvocation, parse, is_eligible_for_analysis, source_file, out_dir,
  is_telemetry_or_tool_crate,
}
use rust_compile_time_instru.Session.Plan.{SessionPlan}
use rust_compile_time_instru.Session.{Files, package_id_for_source, package_id_for_canonical}
use rust_compile_time_instru.Session.Gates.{excludes_wrapper_source}
use rust_compile_time_instru.Session.Closure.{edges_of, telemetry_roots, exclusion_exact}
use rust_compile_time_instru.Wrapper.{WrapperConfig, Environment, is_enabled, resolve, should_skip}
use rust_compile_time_instru.Wrapper.Run.{Machine, Prepared, configured_plan, Ran, run_wrapper}
use rust_compile_time_instru.Wrapper.Prepared.{IsPrepared}
use rust_compile_time_instru.Wrapper.Runs.{run_sound}

module _ (env : Environment) (files : Files) where
  not_a_tool :
      (unit : CompilationUnit) (name source : String) (plan : SessionPlan)
      → should_skip env files plan unit name (resolve env source) ≡ false
      → is_telemetry_or_tool_crate unit ≡ true
      → ⊥
  unfolding should_skip
  not_a_tool unit name source plan passes tool = absurd (ground arith)

  not_excluded :
      (unit : CompilationUnit) (name source : String) (plan : SessionPlan)
      → should_skip env files plan unit name (resolve env source) ≡ false
      → excludes_wrapper_source files plan (resolve env source) ≡ true
      → ⊥
  unfolding should_skip
  not_excluded unit name source plan passes out = absurd (ground arith)

  not_unknown :
      (unit : CompilationUnit) (name source : String) (plan : SessionPlan)
      → should_skip env files plan unit name (resolve env source) ≡ false
      → is_enabled env.dependencies ≡ true
      → package_id_for_source files plan (resolve env source) ≡ none
      → ⊥
  unfolding should_skip
  not_unknown unit name source plan passes on unknown = absurd (ground arith)

same_package :
    (files : Files) (plan : SessionPlan) (ids : List String) (source : String)
    → package_id_for_source files (record plan { wrapper_excluded_package_ids = ids }) source
      ≡ package_id_for_source files plan source
unfolding package_id_for_source package_id_for_canonical
same_package files plan ids source = refl

excludes_owner :
    (files : Files) (plan : SessionPlan) (source id : String)
    → package_id_for_source files plan source ≡ some id
    → contains plan.wrapper_excluded_package_ids id ≡ true
    → excludes_wrapper_source files plan source ≡ true
unfolding excludes_wrapper_source
excludes_owner files plan source id owner out = rw (excludes_wrapper_source, owner) out

module _ (env : Environment) (m : Machine) (config : WrapperConfig) where
  -- Rustc is run with the very arguments, and no stamp is written.
  abbrev pub IsUntouched : Type 0
  IsUntouched =
      (ran : Ran) × (run_wrapper env m config ≡ some ran)
      × (ran.args ≡ config.rustc_args)
      × (ran.stamps ≡ [])

  unless_prepared : ((p : Prepared) → IsPrepared env m config.rustc_args p → ⊥) → IsUntouched
  unless_prepared never =
      let r = run_sound env m config in
      elim r.2 [ inl u ↦ (r.0, r.1, u.0, u.1) | inr i ↦ absurd (never (i.0) i.1) ]

  -- Calls that rustc makes of the wrapper itself, invocations that compile no ordinary Rust crate, and
  -- the crates of telemetry and of this tool reach rustc with the very arguments, and leave no stamp.
  pub tools_untouched :
      (env.guard_is_set ≡ true)
        ⊎ ((i : CrateInvocation) × (parse config.rustc_args ≡ ok i)
            × ((is_eligible_for_analysis i.unit ≡ false)
                ⊎ (is_telemetry_or_tool_crate i.unit ≡ true)))
      → IsUntouched
  tools_untouched (inl g) = unless_prepared (λ p i. absurd (cc (g, i.outermost)))
  tools_untouched (inr h) = unless_prepared (λ p i.
      let same : h.0 ≡ i.invocation = cc (h.1, i.parsed) in
      elim h.2 [
        | inl n ↦
            absurd (cc (i.eligible, subst (λ x. is_eligible_for_analysis x.unit ≡ false) same n))
        | inr t ↦
            let tool = subst (λ x. is_telemetry_or_tool_crate x.unit ≡ true) same t in
            not_a_tool env m.files (i.invocation).unit i.name i.source i.plan (i.chosen).passes tool
      ])

  -- The plan of a build that instruments dependencies excludes what the plan that was loaded demands.
  policy_excludes :
      (unit : CompilationUnit) (plan : SessionPlan) (resolved id : String)
      → is_enabled env.dependencies ≡ true
      → configured_plan env m unit ≡ some plan
      → package_id_for_source m.files (m.load_or_create (out_dir unit)) resolved ≡ some id
      → (contains (m.load_or_create (out_dir unit)).workspace_package_ids id ≡ true)
        ⊎ Reach
            (edges_of (m.load_or_create (out_dir unit)).package_dependencies)
            (telemetry_roots (m.load_or_create (out_dir unit)).package_names_by_id)
            id
      → excludes_wrapper_source m.files plan resolved ≡ true
  unfolding configured_plan
  policy_excludes unit plan resolved id on planned owner out =
      let loaded = m.load_or_create (out_dir unit) in
      let c = exclusion_exact loaded in
      let configured = c.1.0 in
      let known = (c.1.1 id).1 out in
      let same : record loaded { wrapper_excluded_package_ids = c.0 } ≡ plan = ground arith in
      subst (λ q. excludes_wrapper_source m.files q resolved ≡ true) same
        (excludes_owner m.files (record loaded { wrapper_excluded_package_ids = c.0 }) resolved id
          (same_package m.files loaded (c.0) resolved ∙ owner) known)

  policy_same_package :
      (unit : CompilationUnit) (plan : SessionPlan) (resolved : String)
      → is_enabled env.dependencies ≡ true
      → configured_plan env m unit ≡ some plan
      → package_id_for_source m.files plan resolved
        ≡ package_id_for_source m.files (m.load_or_create (out_dir unit)) resolved
  unfolding configured_plan
  policy_same_package unit plan resolved on planned =
      let loaded = m.load_or_create (out_dir unit) in
      let c = exclusion_exact loaded in
      let configured = c.1.0 in
      let same : record loaded { wrapper_excluded_package_ids = c.0 } ≡ plan = ground arith in
      subst
        (λ q.
          package_id_for_source m.files q resolved ≡ package_id_for_source m.files loaded resolved)
        same (same_package m.files loaded (c.0) resolved)

  -- The source of no package, or of one that the build is not to instrument.
  abbrev pub IsOwned : CompilationUnit → String → Type 0
  IsOwned unit source =
      (package_id_for_source m.files (m.load_or_create (out_dir unit)) (resolve env source) ≡ none)
      ⊎ ((id : String) × (package_id_for_source m.files (m.load_or_create (out_dir unit))
              (resolve env source)
            ≡ some id)
          × ((contains (m.load_or_create (out_dir unit)).workspace_package_ids id ≡ true)
              ⊎ Reach (edges_of (m.load_or_create (out_dir unit)).package_dependencies)
                  (telemetry_roots (m.load_or_create (out_dir unit)).package_names_by_id) id))

  owned_skipped :
      (unit : CompilationUnit) (name source : String) (plan : SessionPlan)
      → is_enabled env.dependencies ≡ true
      → configured_plan env m unit ≡ some plan
      → should_skip env m.files plan unit name (resolve env source) ≡ false
      → IsOwned unit source
      → ⊥
  owned_skipped unit name source plan on planned passes (inl n) =
      not_unknown env m.files unit name source plan passes on
        (policy_same_package unit plan (resolve env source) on planned ∙ n)
  owned_skipped unit name source plan on planned passes (inr o) =
      not_excluded env m.files unit name source plan passes
        (policy_excludes unit plan (resolve env source) (o.0) on planned o.1 o.2)

  -- In a build that instruments dependencies, a crate whose source belongs to no package of the plan, to
  -- a package of the workspace, to telemetry or the executor, or to anything that these depend on
  -- is compiled with the very arguments, and leaves no stamp.
  pub owned_untouched :
      (i : CrateInvocation) (source : String)
      → is_enabled env.dependencies ≡ true
      → parse config.rustc_args ≡ ok i
      → source_file i.unit ≡ some source
      → IsOwned i.unit source
      → IsUntouched
  owned_untouched i source on parsed sourced owned = unless_prepared (λ p q.
      let same : i.unit ≡ (q.invocation).unit = cc (parsed, q.parsed) in
      let named : source ≡ q.source = cc (same, sourced, q.sourced) in
      let there = subst (λ u. IsOwned u source) same owned in
      owned_skipped (q.invocation).unit q.name q.source q.plan on q.planned (q.chosen).passes
        (subst (IsOwned (q.invocation).unit) named there))

-- ===== src/Wrapper/Prepared.antt =====
-- What is decided of an invocation before rustc is run.
use rust_compile_time_instru.Prelude.{
  String, ◌≡◌, refl, ◌⊎◌, inl, inr, true, false, not, ◌||◌, some, List, arith, Bool-cases,
  Option-cases, ok, Result-cases,
}
use rust_compile_time_instru.Candidate.{DiscoveryReport}
use rust_compile_time_instru.Transform.Emit.Boxed.{BoxedEmitter}
use rust_compile_time_instru.Discovery.{
  CompilationUnit, CrateInvocation, parse, is_eligible_for_analysis, crate_name, source_file,
  out_dir, has_opentelemetry,
}
use rust_compile_time_instru.Session.Plan.{SessionPlan}
use rust_compile_time_instru.Session.Closure.{exclusion_exact}
use rust_compile_time_instru.Wrapper.{Environment, is_enabled, resolve, should_skip}
use rust_compile_time_instru.Wrapper.Choice.{suppress_spawns, r4_native_otel_rlib, choose_emitter}
use rust_compile_time_instru.Wrapper.Run.{
  Machine, Prepared, unchanged, inject_extern, mirrored, request, circumstances, is_nothing,
  instrument, analysed, prepare_crate, configured_plan, prepare_unit, prepare,
}

module _ (env : Environment) (m : Machine) where
  -- What has been decided of an invocation before its crate is mirrored.
  pub record IsChosen (args : List String) (unit : CompilationUnit) (name source : String)
      (plan : SessionPlan) (report : DiscoveryReport) (emitter : BoxedEmitter) : Type 0 where
    pub passes : should_skip env m.files plan unit name (resolve env source) ≡ false
    pub exists : m.exists (resolve env source) ≡ true
    pub found : DiscoveryReport
    pub analysis : m.analyze_source_file name (resolve env source) ≡ some found
    pub proven : report ≡ suppress_spawns m.files plan (resolve env source) args found
    pub chosen :
        choose_emitter plan report (
          circumstances env m unit name source
            (r4_native_otel_rlib m.files plan (resolve env source) args))
        ≡ some emitter

  -- The arguments and the mirror that a choice leads to.
  abbrev pub outcome :
      List String
      → CompilationUnit
      → String
      → String
      → SessionPlan
      → DiscoveryReport
      → BoxedEmitter
      → Prepared
  outcome args unit name source plan report emitter =
      mirrored env m
        (inject_extern (r4_native_otel_rlib m.files plan (resolve env source) args)
          (has_opentelemetry unit) args)
        source (out_dir unit) (m.mirror (request env m unit name source report emitter))

  -- Either nothing is done with a crate, or it is mirrored as chosen.
  crate_prepared :
      (plan : SessionPlan) (unit : CompilationUnit) (name source : String) (args : List String)
      → (prepare_crate env m plan unit name source args ≡ unchanged args)
        ⊎ ((report : DiscoveryReport) × (emitter : BoxedEmitter) × IsChosen args unit name source
              plan report emitter
            × (prepare_crate env m plan unit name source args
                ≡ outcome args unit name source plan report emitter))
  unfolding prepare_crate analysed instrument
  crate_prepared plan unit name source args =
      elim (Bool-cases (
        should_skip env m.files plan unit name (resolve env source)
        || not (m.exists (resolve env source)))) [
          | inl s ↦ inl (ground arith)
          | inr s ↦ elim (Option-cases (m.analyze_source_file name (resolve env source))) [
            | inl n ↦ inl (ground arith)
            | inr f ↦
                let report = suppress_spawns m.files plan (resolve env source) args (f.0) in
                let rlib = r4_native_otel_rlib m.files plan (resolve env source) args in
                elim (Bool-cases (is_nothing env m report)) [
                  | inl e ↦ inl (rw (s, f.1, e) refl)
                  | inr e ↦
                      elim (Option-cases
                        (choose_emitter plan report (circumstances env m unit name source rlib))) [
                          | inl n ↦ inl (rw (s, f.1, e, n) refl)
                          | inr c ↦ inr (
                            report,
                            c.0,
                            record {
                              passes = ground arith;
                              exists = ground arith;
                              found = f.0;
                              analysis = f.1;
                              proven = refl;
                              chosen = c.1;
                            },
                            rw (s, f.1, e, c.1) refl,
                          )
                        ]
                ]
          ]
        ]

  -- An invocation whose crate is mirrored.
  pub record IsPrepared (args : List String) (p : Prepared) : Type 0 where
    pub outermost : env.guard_is_set ≡ false
    pub invocation : CrateInvocation
    pub parsed : parse args ≡ ok invocation
    pub eligible : is_eligible_for_analysis invocation.unit ≡ true
    pub name : String
    pub named : crate_name invocation.unit ≡ some name
    pub source : String
    pub sourced : source_file invocation.unit ≡ some source
    pub plan : SessionPlan
    pub planned : configured_plan env m invocation.unit ≡ some plan
    pub report : DiscoveryReport
    pub emitter : BoxedEmitter
    pub chosen : IsChosen args invocation.unit name source plan report emitter
    pub as_chosen : p ≡ outcome args invocation.unit name source plan report emitter

  configured_plan_total :
      (unit : CompilationUnit) → (plan : SessionPlan) × (configured_plan env m unit ≡ some plan)
  unfolding configured_plan
  configured_plan_total unit =
      let c = exclusion_exact (m.load_or_create (out_dir unit)) in
      let configured = c.1.0 in
      elim (Bool-cases (is_enabled env.dependencies)) [
        | inl d ↦ (
          record (m.load_or_create (out_dir unit)) { wrapper_excluded_package_ids = c.0 },
          rw d configured,
        )
        | inr d ↦ (m.load_or_create (out_dir unit), rw d refl)
      ]

  pub prepare_cases :
      (args : List String)
      → (p : Prepared) × (prepare env m args ≡ some p) × ((p ≡ unchanged args) ⊎ IsPrepared args p)
  unfolding prepare prepare_unit
  prepare_cases args = elim (Bool-cases env.guard_is_set) [
    | inl g ↦ (unchanged args, ground arith, inl refl)
    | inr g ↦ elim (Result-cases (parse args)) [
      | inl e ↦ let f = e.1 in (unchanged args, ground arith, inl refl)
      | inr i ↦
          let f = i.1 in
          elim (Bool-cases (is_eligible_for_analysis (i.0).unit)) [
            | inr e ↦ (unchanged args, ground arith, inl refl)
            | inl e ↦ elim (Option-cases (crate_name (i.0).unit)) [
              | inl n ↦ (unchanged args, ground arith, inl refl)
              | inr n ↦
                  let nn = n.1 in
                  elim (Option-cases (source_file (i.0).unit)) [
                    | inl s ↦ (unchanged args, ground arith, inl refl)
                    | inr s ↦
                        let ss = s.1 in
                        let c = configured_plan_total (i.0).unit in
                        let cc1 = c.1 in
                        (
                          prepare_crate env m (c.0) (i.0).unit (n.0) (s.0) args,
                          ground arith,
                          elim (crate_prepared (c.0) (i.0).unit (n.0) (s.0) args) [
                            | inl u ↦ inl u
                            | inr k ↦ inr (record {
                              outermost = g;
                              invocation = i.0;
                              parsed = i.1;
                              eligible = e;
                              name = n.0;
                              named = n.1;
                              source = s.0;
                              sourced = s.1;
                              plan = c.0;
                              planned = c.1;
                              report = k.0;
                              emitter = k.1;
                              chosen = k.2;
                              as_chosen = k.3;
                            })
                          ],
                        )
                  ]
            ]
          ]
    ]
  ]

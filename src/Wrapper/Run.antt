-- ===== src/Wrapper/Run.antt =====
-- cargo-instrument/src/wrapper.rs: `run_wrapper`. The analysis of a source, its preflight check, the
-- mirroring and rustc are arguments, as the environment and the session plan are.
use rust_compile_time_instru.Prelude.{
  ℕ, String, ◌<>◌, Bool, true, false, not, ◌&&◌, ◌||◌, Option, none, some, List, [], ◌∷◌, ◌++◌,
  ◌==◌, if◌then◌else◌, Result, ok, err,
}
use rust_compile_time_instru.Candidate.{DiscoveryReport}
use rust_compile_time_instru.Transform.Emit.Boxed.{BoxedEmitter}
use rust_compile_time_instru.Unit.{UnitKey, from_crate_name, instrumentation_stamp_name}
use rust_compile_time_instru.Discovery.{
  CompilationUnit, CrateInvocation, DiscoveryError, parse, is_eligible_for_analysis, crate_name,
  source_file, out_dir, extra_filename, has_opentelemetry, has_otel_shim, edition, unit_id, role,
}
use rust_compile_time_instru.Session.Plan.{SessionPlan}
use rust_compile_time_instru.Session.{Files}
use rust_compile_time_instru.Session.Closure.{configure_dependency_only_policy}
use rust_compile_time_instru.Paths.{same_path, paths_are_identical}
use rust_compile_time_instru.Wrapper.{
  WrapperError, spawn_rustc, WrapperConfig, Environment, is_enabled, resolve, should_skip,
}
use rust_compile_time_instru.Wrapper.Choice.{
  Circumstances, suppress_spawns, r4_native_otel_rlib, choose_emitter,
}
use rust_compile_time_instru.Wrapper.Mirror.{MirroredCrateInfo, MirrorError, render}

-- What a crate is mirrored with.
pub record MirrorRequest : Type 0 where
  pub source : String
  pub crate_name : String
  pub unit_id : UnitKey
  pub extra_filename : Option String
  pub out_dir : Option String
  pub report : DiscoveryReport
  pub emitter : BoxedEmitter

-- The code and the process behind an exit status; `none` is a process that a signal has ended.
abbrev pub ExitStatus : Type 0
ExitStatus = Option ℕ

abbrev pub success : ExitStatus → Bool
success none = false
success (some n) = n == 0

pub record Machine : Type 0 where
  pub files : Files
  pub exists : String → Bool
  pub load_or_create : Option String → SessionPlan
  pub analyze_source_file : String → String → Option DiscoveryReport
  pub check_application_preflight : String → String → Bool
  pub mirror : MirrorRequest → Result MirroredCrateInfo MirrorError
  pub rustc : String → List String → Option ExitStatus

-- The arguments for rustc, and the mirror with the output directory.
pub record Prepared : Type 0 where
  pub args_to_run : List String
  pub mirrored_info : Option (MirroredCrateInfo × String)

abbrev pub unchanged : List String → Prepared
unchanged args = record { args_to_run = args; mirrored_info = none }

abbrev pub is_root_arg : Files → String → String → String → Bool
is_root_arg files source resolved arg =
    same_path arg source || (same_path arg resolved || paths_are_identical files arg resolved)

-- The loop that stops at the first argument it replaces.
unfoldable pub replace_root : (String → Bool) → String → List String → List String
replace_root is_root new_root [] = []
replace_root is_root new_root (a ∷ args) =
    let rest = replace_root is_root new_root args in if is_root a then new_root ∷ args else a ∷ rest

unfoldable pub inject_extern : Option String → Bool → List String → List String
inject_extern none has_otel args = args
inject_extern (some rlib) has_otel args =
    if has_otel then args else args ++ ("--extern" ∷ ("opentelemetry=" <> rlib) ∷ [])

abbrev pub with_out_dir :
    Environment → MirroredCrateInfo → Option String → Option (MirroredCrateInfo × String)
with_out_dir env info none = none
with_out_dir env info (some out) = some (info, resolve env out)

module _ (env : Environment) (m : Machine) where
  unfoldable pub mirrored :
      List String → String → Option String → Result MirroredCrateInfo MirrorError → Prepared
  mirrored args source out (err e) = unchanged args
  mirrored args source out (ok info) = record {
    args_to_run =
        replace_root (is_root_arg m.files source (resolve env source)) (render info.new_root) args;
    mirrored_info = with_out_dir env info out;
  }

  abbrev or_from_name : String → Option UnitKey → UnitKey
  or_from_name name none = from_crate_name name
  or_from_name name (some u) = u

  abbrev pub request :
      CompilationUnit → String → String → DiscoveryReport → BoxedEmitter → MirrorRequest
  request unit name source report emitter = record {
    source = source;
    crate_name = name;
    unit_id = or_from_name name (unit_id unit);
    extra_filename = extra_filename unit;
    out_dir = out_dir unit;
    report = report;
    emitter = emitter;
  }

  abbrev pub circumstances : CompilationUnit → String → String → Option String → Circumstances
  circumstances unit name source rlib = record {
    crate_name = name;
    edition = edition unit;
    role = role unit env.current_dir;
    has_otel = has_opentelemetry unit;
    has_otel_shim = has_otel_shim unit;
    preflight_failed =
        has_otel_shim unit && m.check_application_preflight name (resolve env source);
    use_sentinel = env.sentinel_mode;
    native_otel_enforced = env.native_otel;
    dependency_only = is_enabled env.dependencies;
    rlib = rlib;
  }

  abbrev pub is_nothing : DiscoveryReport → Bool
  is_nothing report = elim report.candidates [
    | [] ↦ elim report.spawn_sites [ [] ↦ true | s ∷ more ↦ false ]
    | c ∷ more ↦ false
  ]

  -- What is done with a report without unproven spawn sites.
  unfoldable pub instrument :
      SessionPlan → CompilationUnit → String → String → List String → DiscoveryReport → Prepared
  instrument plan unit name source args report =
      let rlib = r4_native_otel_rlib m.files plan (resolve env source) args in
      if is_nothing report
      then unchanged args
      else elim (choose_emitter plan report (circumstances unit name source rlib)) [
        | none ↦ unchanged args
        | some emitter ↦
            mirrored (inject_extern rlib (has_opentelemetry unit) args) source (out_dir unit)
              (m.mirror (request unit name source report emitter))
      ]

  unfoldable pub analysed :
      SessionPlan
      → CompilationUnit
      → String
      → String
      → List String
      → Option DiscoveryReport
      → Prepared
  analysed plan unit name source args none = unchanged args
  analysed plan unit name source args (some report) =
      instrument plan unit name source args
        (suppress_spawns m.files plan (resolve env source) args report)

  -- A crate behind the gate of its classification, with the policy configured.
  unfoldable pub prepare_crate :
      SessionPlan → CompilationUnit → String → String → List String → Prepared
  prepare_crate plan unit name source args =
      let resolved = resolve env source in
      if should_skip env m.files plan unit name resolved || not (m.exists resolved)
      then unchanged args
      else analysed plan unit name source args (m.analyze_source_file name resolved)

  unfoldable pub configured_plan : CompilationUnit → Option SessionPlan
  configured_plan unit =
      let plan = m.load_or_create (out_dir unit) in
      if is_enabled env.dependencies then configure_dependency_only_policy plan else some plan

  unfoldable pub prepare_unit : CompilationUnit → List String → Option Prepared
  prepare_unit unit args = elim (crate_name unit) [
    | none ↦ some (unchanged args)
    | some name ↦ elim (source_file unit) [
      | none ↦ some (unchanged args)
      | some source ↦ elim (configured_plan unit) [
        | none ↦ none
        | some plan ↦ some (prepare_crate plan unit name source args)
      ]
    ]
  ]

  abbrev prepare_parsed : List String → Result CrateInvocation DiscoveryError → Option Prepared
  prepare_parsed args (err e) = some (unchanged args)
  prepare_parsed args (ok invocation) =
      if is_eligible_for_analysis invocation.unit
      then prepare_unit invocation.unit args
      else some (unchanged args)

  -- The work before rustc; `none` is a search of the policy that is out of fuel.
  unfoldable pub prepare : List String → Option Prepared
  prepare args =
      if env.guard_is_set then some (unchanged args) else prepare_parsed args (parse args)

abbrev stamp_path : String → Option String → List String
stamp_path out_dir none = []
stamp_path out_dir (some name) = ((out_dir <> "/") <> name) ∷ []

-- The stamp of the extra filename, if there is one, and the stamp without.
unfoldable pub stamps_of : MirroredCrateInfo → String → List String
stamps_of info out_dir =
    elim info.extra_filename [
      | none ↦ []
      | some extra ↦ stamp_path out_dir (instrumentation_stamp_name info.crate_name extra)
    ]
    ++ stamp_path out_dir (instrumentation_stamp_name info.crate_name "")

abbrev pub written : Option (MirroredCrateInfo × String) → List String
written none = []
written (some i) = stamps_of (i.0) (i.1)

-- The stamps that are written, and the exit code or the error.
pub record Ran : Type 0 where
  pub args : List String
  pub stamps : List String
  pub code : Result ℕ WrapperError

abbrev pub or_one : ExitStatus → ℕ
or_one none = 1
or_one (some n) = n

unfoldable pub finish : Machine → WrapperConfig → Prepared → Ran
finish m config p = elim (m.rustc config.rustc_binary p.args_to_run) [
  | none ↦ record {
    args = p.args_to_run;
    stamps = [];
    code = err (spawn_rustc config.rustc_binary);
  }
  | some status ↦ record {
    args = p.args_to_run;
    stamps = if success status then written p.mirrored_info else [];
    code = ok (or_one status);
  }
]

unfoldable pub run_wrapper : Environment → Machine → WrapperConfig → Option Ran
run_wrapper env m config = elim (prepare env m config.rustc_args) [
  | none ↦ none
  | some p ↦ some (finish m config p)
]

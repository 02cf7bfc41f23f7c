-- ===== src/Wrapper.antt =====
-- cargo-instrument/src/wrapper.rs: the configuration of the wrapper and the gates that an invocation
-- passes. The environment is a record of what it holds.
pub mod Choice
pub mod Allowed
pub mod Mirror
pub mod Mirrored
pub mod Run
pub mod Prepared
pub mod Runs
pub mod Untouched
use rust_compile_time_instru.Prelude.{
  ℕ, ◌+◌, String, ◌<>◌, Bool, true, false, not, ◌&&◌, ◌||◌, Option, none, some, List, [], ◌∷◌, leb,
  ◌==◌, str_eq, if◌then◌else◌,
}
use rust_compile_time_instru.Bytes.{Bytes, codes}
use rust_compile_time_instru.Discovery.{
  CrateRole, registry_dependency, CompilationUnit, role, is_telemetry_or_tool_crate, is_relative,
}
use rust_compile_time_instru.Session.Plan.{SessionPlan}
use rust_compile_time_instru.Session.{Files, package_id_for_source}
use rust_compile_time_instru.Session.Gates.{excludes_wrapper_source, is_host_only_unit}

pub data WrapperError : Type 0 where
  missing_rustc : WrapperError
  spawn_rustc : (path : String) → WrapperError

pub record WrapperConfig : Type 0 where
  pub rustc_binary : String
  pub rustc_args : List String
  pub debug_output : Bool

-- The variables that the wrapper reads, and the directory that it runs in.
pub record Environment : Type 0 where
  pub rustc : Option String
  pub instrument_debug : Option String
  pub guard_is_set : Bool
  pub dependencies : Option String
  pub registry : Option String
  pub sentinel_mode : Bool
  pub native_otel : Bool
  pub current_dir : String

abbrev is_not_zero : Option String → Bool
is_not_zero none = false
is_not_zero (some v) = not (str_eq v "0")

abbrev or_rustc : Option String → String
or_rustc none = "rustc"
or_rustc (some p) = p

abbrev configured : Environment → String → List String → WrapperConfig
configured env rustc args = record {
  rustc_binary = rustc;
  rustc_args = args;
  debug_output = is_not_zero env.instrument_debug;
}

-- `none` is the panic of the slice `args[1..]`.
unfoldable pub from_args : Environment → List String → Option WrapperConfig
from_args env [] = none
from_args env (program ∷ []) = some (configured env (or_rustc env.rustc) [])
from_args env (program ∷ rustc ∷ args) = some (configured env rustc args)

-- `to_ascii_lowercase` of a byte.
abbrev lower : ℕ → ℕ
lower c = if leb b'A' c && leb c b'Z' then c + 32 else c

unfoldable pub eq_ignore_ascii_case : Bytes → Bytes → Bool
eq_ignore_ascii_case [] [] = true
eq_ignore_ascii_case (a ∷ s) (b ∷ t) = lower a == lower b && eq_ignore_ascii_case s t
eq_ignore_ascii_case _ _ = false

-- A variable that is `1` or `true`.
unfoldable pub is_enabled : Option String → Bool
is_enabled none = false
is_enabled (some v) = str_eq v "1" || eq_ignore_ascii_case (codes v) (codes "true")

unfoldable pub resolve : Environment → String → String
resolve env source = if is_relative source then (env.current_dir <> "/") <> source else source

abbrev is_registry : CrateRole → Bool
is_registry registry_dependency = true
is_registry _ = false

abbrev is_absent : Option String → Bool
is_absent none = true
is_absent (some a) = false

-- The gate before a source is analysed.
unfoldable pub should_skip :
    Environment → Files → SessionPlan → CompilationUnit → String → String → Bool
should_skip env files plan unit crate_name resolved =
    if (is_enabled env.dependencies && is_absent (package_id_for_source files plan resolved))
      || (excludes_wrapper_source files plan resolved || is_telemetry_or_tool_crate unit)
    then true
    else if is_host_only_unit plan crate_name (some resolved)
    then true
    else if is_registry (role unit env.current_dir)
    then not (is_enabled env.registry)
    else false

-- ===== src/Discovery.antt =====
-- cargo-instrument/src/discovery.rs: what a rustc invocation compiles. A path is its text, with `/`
-- between its components, as on Unix.
pub mod Scan
pub mod Outcome
use rust_compile_time_instru.Prelude.{
  String, ◌<>◌, Bool, true, false, not, ◌&&◌, ◌||◌, Option, none, some, List, [], ◌∷◌, str_eq,
  if◌then◌else◌, any, every, Result, ok, err,
}
use rust_compile_time_instru.Text.{starts_with, contains, behind}
use rust_compile_time_instru.Unit.{UnitKey}
use rust_compile_time_instru.Unit
use rust_compile_time_instru.Discovery.Scan.{Scanned, nothing_scanned, scan}

pub data DiscoveryError : Type 0 where
  empty_arguments : DiscoveryError
  missing_source_file : List String → DiscoveryError

pub data CrateRole : Type 0 where
  application : CrateRole
  local_path_dependency : CrateRole
  workspace_member_dependency : CrateRole
  registry_dependency : CrateRole

-- The fields of `CompilationUnit::RustCrate`.
pub record RustCrate : Type 0 where
  pub crate_name : String
  pub crate_types : List String
  pub edition : Option String
  pub target : Option String
  pub out_dir : Option String
  pub source_file : String
  pub is_test : Bool
  pub has_opentelemetry : Bool
  pub has_tokio : Bool
  pub has_otel_shim : Bool
  pub metadata_hash : Option String
  pub extra_filename : Option String

pub data CompilationUnit : Type 0 where
  rust_crate : RustCrate → CompilationUnit
  build_script : (crate_name source_file : String) → CompilationUnit
  proc_macro : (crate_name source_file : String) → CompilationUnit
  compiler_query : (query_flags : List String) → CompilationUnit
  pass_through : (reason : String) → CompilationUnit

unfoldable pub is_eligible_for_analysis : CompilationUnit → Bool
is_eligible_for_analysis (rust_crate c) = true
is_eligible_for_analysis _ = false

unfoldable pub crate_name : CompilationUnit → Option String
crate_name (rust_crate c) = some c.crate_name
crate_name (build_script n f) = some n
crate_name (proc_macro n f) = some n
crate_name _ = none

unfoldable pub source_file : CompilationUnit → Option String
source_file (rust_crate c) = some c.source_file
source_file (build_script n f) = some f
source_file (proc_macro n f) = some f
source_file _ = none

-- `out_dir`, `edition`, `metadata_hash` and `extra_filename` read a field of a Rust crate.
abbrev crate_field : (RustCrate → Option String) → CompilationUnit → Option String
crate_field field (rust_crate c) = field c
crate_field field _ = none

abbrev crate_flag : (RustCrate → Bool) → CompilationUnit → Bool
crate_flag field (rust_crate c) = field c
crate_flag field _ = false

unfoldable pub out_dir : CompilationUnit → Option String
out_dir u = crate_field (λ c. c.out_dir) u

unfoldable pub has_opentelemetry : CompilationUnit → Bool
has_opentelemetry u = crate_flag (λ c. c.has_opentelemetry) u

unfoldable pub has_tokio : CompilationUnit → Bool
has_tokio u = crate_flag (λ c. c.has_tokio) u

unfoldable pub has_otel_shim : CompilationUnit → Bool
has_otel_shim u = crate_flag (λ c. c.has_otel_shim) u

unfoldable pub edition : CompilationUnit → Option String
edition u = crate_field (λ c. c.edition) u

unfoldable pub unit_id : CompilationUnit → Option UnitKey
unit_id (rust_crate c) = some (Unit.new c.crate_name c.metadata_hash)
unit_id (build_script n f) = some (Unit.new n none)
unit_id (proc_macro n f) = some (Unit.new n none)
unit_id _ = none

unfoldable pub metadata_hash : CompilationUnit → Option String
metadata_hash u = crate_field (λ c. c.metadata_hash) u

unfoldable pub extra_filename : CompilationUnit → Option String
extra_filename u = crate_field (λ c. c.extra_filename) u

unfoldable pub is_tool_name : String → Bool
is_tool_name n =
    str_eq n "opentelemetry"
    || (starts_with n "opentelemetry_"
        || (str_eq n "otel_shim"
            || (str_eq n "otel-shim"
                || (str_eq n "cargo_instrument" || str_eq n "cargo-instrument"))))

unfoldable pub is_telemetry_or_tool_crate : CompilationUnit → Bool
is_telemetry_or_tool_crate (rust_crate c) = is_tool_name c.crate_name
is_telemetry_or_tool_crate _ = false

-- `Path::file_name`, of a path that ends in a name.
abbrev pub file_name : String → String
file_name p = behind b'/' p

-- `Path::is_relative`
abbrev pub is_relative : String → Bool
is_relative p = not (starts_with p "/")

-- `Path::starts_with`, by whole components, of a directory written without a final `/`.
abbrev pub in_directory : String → String → Bool
in_directory p dir = str_eq p dir || starts_with p (dir <> "/")

unfoldable pub is_registry_path : String → Bool
is_registry_path p =
    contains p ".cargo/registry"
    || (contains p ".cargo\\registry" || (contains p ".cargo/git" || contains p ".cargo\\git"))

unfoldable pub role : CompilationUnit → String → CrateRole
role (rust_crate c) current_dir =
    if is_registry_path c.source_file || is_tool_name c.crate_name
    then registry_dependency
    else if c.has_opentelemetry
        || (c.has_otel_shim
            || (any (λ t. str_eq t "bin") c.crate_types
                || str_eq (file_name c.source_file) "main.rs"))
    then application
    else if is_relative c.source_file || in_directory c.source_file current_dir
    then workspace_member_dependency
    else local_path_dependency
role _ current_dir = application

pub record CrateInvocation : Type 0 where
  pub unit : CompilationUnit
  pub original_args : List String

-- `-vV`, `-V` or `--version`, an argument `-`, or a `--print`.
abbrev pub is_version_flag : String → Bool
is_version_flag a = str_eq a "-vV" || (str_eq a "--version" || str_eq a "-V")

abbrev pub is_query_flag : String → Bool
is_query_flag a = is_version_flag a || (starts_with a "--print" || str_eq a "-")

unfoldable pub filter : (String → Bool) → List String → List String
filter p [] = []
filter p (a ∷ args) = let rest = filter p args in if p a then a ∷ rest else rest

abbrev is_empty : List String → Bool
is_empty [] = true
is_empty (a ∷ args) = false

-- The first test of `parse`: an invocation that only asks the compiler something.
unfoldable pub is_explicit_query : List String → Bool
is_explicit_query args =
    not (is_empty (filter is_query_flag args))
    && (any is_version_flag args
        || (any (λ a. str_eq a "-") args || every (λ a. starts_with a "-") args))

-- `Path::file_stem`: the name up to its last dot, or all of it when it has no other.
unfoldable pub before_last_dot : String → Option String
before_last_dot String.[] = none
before_last_dot (String.◌∷◌ c s) = elim (before_last_dot s) [
  | some stem ↦ some (String.◌∷◌ c stem)
  | none ↦ if starts_with (String.◌∷◌ c s) "." then some "" else none
]

unfoldable pub file_stem : String → String
file_stem p =
    let name = file_name p in
    elim (before_last_dot name) [ none ↦ name | some stem ↦ if str_eq stem "" then name else stem ]

unfoldable pub is_build_script : String → String → Bool
is_build_script name source =
    str_eq name "build_script_build"
    || (starts_with name "build_script_" || str_eq (file_name source) "build.rs")

unfoldable pub ordinary_crate : String → Scanned → String → RustCrate
ordinary_crate name s source = record {
  crate_name = name;
  crate_types = s.crate_types;
  edition = s.edition;
  target = s.target;
  out_dir = s.out_dir;
  source_file = source;
  is_test = s.is_test;
  has_opentelemetry = s.has_opentelemetry;
  has_tokio = s.has_tokio;
  has_otel_shim = s.has_otel_shim;
  metadata_hash = s.metadata_hash;
  extra_filename = s.extra_filename;
}

unfoldable pub resolved_crate_name : Scanned → String → String
resolved_crate_name s source = elim s.crate_name [ none ↦ file_stem source | some n ↦ n ]

-- The classification at the end of `parse`, of a scan that found a source file.
unfoldable pub classify : Scanned → String → CompilationUnit
classify s source =
    let name = resolved_crate_name s source in
    if any (λ t. str_eq t "proc-macro") s.crate_types
    then proc_macro name source
    else if is_build_script name source
    then build_script name source
    else rust_crate (ordinary_crate name s source)

unfoldable pub classify_scan : List String → Scanned → CompilationUnit
classify_scan queries s = elim s.positional_source [
  | none ↦
      if is_empty queries
      then pass_through "No .rs source file specified in rustc arguments"
      else compiler_query queries
  | some source ↦ classify s source
]

unfoldable pub parse : List String → Result CrateInvocation DiscoveryError
parse [] = err empty_arguments
parse (a ∷ rest) =
    let args = a ∷ rest in
    let queries = filter is_query_flag args in
    ok (record {
      unit =
          if is_explicit_query args
          then compiler_query queries
          else classify_scan queries (scan false args nothing_scanned);
      original_args = args;
    })

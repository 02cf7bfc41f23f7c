-- ===== src/Driver.antt =====
-- tools/cargo-instrument-rust-driver/src/main.rs: the arguments that the driver hands to the compiler.
-- The environment is an argument.
pub mod Controls
pub mod Body
use rust_compile_time_instru.Prelude.{
  String, Bool, true, false, not, ◌&&◌, ◌||◌, Option, none, some, List, [], ◌∷◌, ◌++◌, str_eq,
  if◌then◌else◌, any,
}
use rust_compile_time_instru.Text.{starts_with, strip_prefix, before, behind}

abbrev pub is_control : String → Bool
is_control a = str_eq a "--cap-lints" || str_eq a "--force-warn"

abbrev pub is_joined_control : String → Bool
is_joined_control a = starts_with a "--cap-lints=" || starts_with a "--force-warn="

-- `normalize_lint_controls`; `true` is that the argument is the value of a control.
unfoldable pub drop_controls : Bool → List String → List String
drop_controls value [] = []
drop_controls true (a ∷ args) = drop_controls false args
drop_controls false (a ∷ args) =
    let rest = drop_controls (is_control a) args in
    if is_control a || is_joined_control a then rest else a ∷ rest

unfoldable pub normalize_lint_controls : List String → List String
normalize_lint_controls args = drop_controls false args

-- The crate that an `--extern` names.
abbrev pub extern_name : String → String
extern_name spec = behind b':' (before b'=' spec)

abbrev pub names_opentelemetry : Option String → Bool
names_opentelemetry none = false
names_opentelemetry (some spec) = str_eq (extern_name spec) "opentelemetry"

-- `has_opentelemetry_extern`; `true` is that the argument is the value of an `--extern`.
unfoldable pub extern_from : Bool → List String → Bool
extern_from value [] = false
extern_from true (a ∷ args) = names_opentelemetry (some a) || extern_from false args
extern_from false (a ∷ args) =
    extern_from (str_eq a "--extern") args
    || (not (str_eq a "--extern") && names_opentelemetry (strip_prefix a "--extern="))

unfoldable pub has_opentelemetry_extern : List String → Bool
has_opentelemetry_extern args = extern_from false args

-- `crate_name`: the argument behind the first `--crate-name` that has one.
unfoldable pub crate_name : List String → Option String
crate_name [] = none
crate_name (a ∷ []) = none
crate_name (a ∷ b ∷ args) =
    let rest = crate_name (b ∷ args) in if str_eq a "--crate-name" then some b else rest

-- The compiler's path, where Cargo passed it.
abbrev pub without_compiler : (String → String) → List String → List String
without_compiler file_stem (program ∷ first ∷ args) =
    if str_eq (file_stem first) "rustc" then program ∷ args else program ∷ first ∷ args
without_compiler file_stem args = args

abbrev pub with_sysroot : Option String → List String → List String
with_sysroot none args = args
with_sysroot (some sysroot) args =
    if any (λ a. str_eq a "--sysroot") args then args else args ++ "--sysroot" ∷ sysroot ∷ []

abbrev pub added_controls : List String
added_controls = "--cap-lints=allow" ∷ "--force-warn=cargo_instrument_instrument" ∷ []

-- The arguments that `main` hands to `run_compiler`.
unfoldable pub compiler_args : (String → String) → Option String → List String → List String
compiler_args file_stem sysroot args =
    normalize_lint_controls (with_sysroot sysroot (without_compiler file_stem args))
    ++ added_controls

-- ===== src/Cli.antt =====
-- cargo-instrument/src/main.rs: how the command line is taken apart, and which arguments and file
-- names are handed on. The environment and the file system are arguments.
pub mod Arguments
pub mod Stamps
pub mod Freshness
pub mod Invalidate
pub mod Artifacts
pub mod Acquire
pub mod Dirty
pub mod Coverage
use rust_compile_time_instru.Prelude.{
  String, ◌<>◌, Bool, true, false, not, ◌&&◌, ◌||◌, Option, none, some, List, [], ◌∷◌, ◌++◌, str_eq,
  if◌then◌else◌, any,
}
use rust_compile_time_instru.Text.{starts_with, ends_with, strip_prefix}
use rust_compile_time_instru.Unit.{instrumentation_stamp_name}

-- `is_wrapper_invocation`, of whether the mode variable is set, of `Path::file_stem` ("" for none) and of
-- `Path::exists`.
unfoldable pub is_wrapper_invocation :
    Bool → (String → String) → (String → Bool) → List String → Bool
is_wrapper_invocation mode_set file_stem exists (program ∷ first ∷ args) =
    mode_set
    || (not (
          any (str_eq first)
            ("instrument" ∷ "analyze" ∷ "transform" ∷ "--help" ∷ "-h" ∷ "--version" ∷ "-V" ∷ []))
        && (str_eq (file_stem first) "rustc"
            || (not (starts_with first "-") && (not (ends_with first ".rs") && exists first))))
is_wrapper_invocation mode_set file_stem exists _ = mode_set

pub record CliInvocation : Type 0 where
  pub cargo_args : List String
  pub app_args : List String
  pub has_app_args_separator : Bool
  pub with_dependencies : Bool

abbrev pub is_empty : List String → Bool
is_empty [] = true
is_empty (a ∷ args) = false

-- An argument before the separator: whether it is the separator, and the variables after it.
unfoldable pub step_cli : String → CliInvocation → Bool × CliInvocation
step_cli a s =
    if str_eq a "--with-dependencies"
    then (false, record s { with_dependencies = true })
    else if str_eq a "--"
    then if is_empty s.cargo_args
      then (false, s)
      else (true, record s { has_app_args_separator = true })
    else (false, record s { cargo_args = s.cargo_args ++ a ∷ [] })

-- The loop of `parse_cli_invocation`, with `in_app_args` and the variables that it assigns.
unfoldable pub scan_cli : Bool → List String → CliInvocation → CliInvocation
scan_cli in_app [] s = s
scan_cli true (a ∷ args) s = scan_cli true args (record s { app_args = s.app_args ++ a ∷ [] })
scan_cli false (a ∷ args) s = let r = step_cli a s in scan_cli (r.0) args (r.1)

unfoldable pub default_to_build : List String → List String
default_to_build [] = "build" ∷ []
default_to_build (a ∷ args) = a ∷ args

abbrev pub skip_leading : List String → List String
skip_leading [] = []
skip_leading (a ∷ args) = if str_eq a "--" then args else a ∷ args

-- The variables at first, and what the loop's result is made into.
abbrev pub start : Bool → CliInvocation
start dependencies = record {
  cargo_args = [];
  app_args = [];
  has_app_args_separator = false;
  with_dependencies = dependencies;
}

abbrev pub finish : CliInvocation → CliInvocation
finish s = record s { cargo_args = default_to_build s.cargo_args }

-- `parse_cli_invocation`, of what the environment says of dependencies.
unfoldable pub parse_cli_invocation : Bool → List String → CliInvocation
parse_cli_invocation dependencies raw_args =
    finish (scan_cli false (skip_leading raw_args) (start dependencies))

-- `extract_package_specs`; `true` is that the argument is the value of a `-p`.
unfoldable pub package_specs_from : Bool → List String → List String
package_specs_from value [] = []
package_specs_from true (a ∷ args) = a ∷ package_specs_from false args
package_specs_from false (a ∷ args) =
    let named = str_eq a "-p" || str_eq a "--package" in
    let rest = package_specs_from named args in
    if named then rest else elim (strip_prefix a "--package=") [
      | some spec ↦ spec ∷ rest
      | none ↦ elim (strip_prefix a "-p=") [ some spec ↦ spec ∷ rest | none ↦ rest ]
    ]

unfoldable pub extract_package_specs : List String → List String
extract_package_specs args = package_specs_from false args

-- `without_message_format`, with `skip_next`.
unfoldable pub skip_message_format : Bool → List String → List String
skip_message_format skip_next [] = []
skip_message_format true (a ∷ args) = skip_message_format false args
skip_message_format false (a ∷ args) =
    let rest = skip_message_format (str_eq a "--message-format") args in
    if str_eq a "--message-format" || starts_with a "--message-format=" then rest else a ∷ rest

unfoldable pub without_message_format : List String → List String
without_message_format args = skip_message_format false args

-- The `or_else` of the two prefixes.
abbrev pub or_else : Option String → Option String → Option String
or_else none o = o
or_else (some a) o = some a

-- `artifact_stamp_name`, of the artifact's file stem.
unfoldable pub artifact_stamp_name : String → String → Option String
artifact_stamp_name normalized_target stem =
    elim (or_else (strip_prefix stem (normalized_target <> "-"))
      (strip_prefix stem ("lib" <> normalized_target <> "-"))) [
        | some artifact_hash ↦ instrumentation_stamp_name normalized_target ("-" <> artifact_hash)
        | none ↦
            if str_eq stem normalized_target || str_eq stem ("lib" <> normalized_target)
            then instrumentation_stamp_name normalized_target ""
            else none
      ]

-- The flags that `cargo clean` is given, and those among them that take a value.
abbrev pub takes_value : String → Bool
takes_value a = any (str_eq a) ("--manifest-path" ∷ "--config" ∷ "--profile" ∷ [])

abbrev pub is_forwarded : String → Bool
is_forwarded a =
    starts_with a "--manifest-path="
    || (starts_with a "--config="
        || (starts_with a "--profile="
            || any (str_eq a) ("--offline" ∷ "--locked" ∷ "--frozen" ∷ "--release" ∷ [])))

-- `clean_forward_flags`; `true` is that the argument is the value of the flag before it.
unfoldable pub forward_from : Bool → List String → List String
forward_from value [] = []
forward_from true (a ∷ args) = a ∷ forward_from false args
forward_from false (a ∷ args) =
    let rest = forward_from (takes_value a) args in
    if takes_value a || is_forwarded a then a ∷ rest else rest

unfoldable pub clean_forward_flags : List String → List String
clean_forward_flags cargo_args = forward_from false cargo_args

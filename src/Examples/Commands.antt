-- ===== src/Examples/Commands.antt =====
-- Command lines.
use rust_compile_time_instru.Prelude.{String, ◌≡◌, refl, true, false, none, some, List, [], ◌∷◌, ok}
use rust_compile_time_instru.Text.{strip_prefix, starts_with, ends_with, before, behind, after_last}
use rust_compile_time_instru.Discovery.{
  CrateInvocation, RustCrate, rust_crate, parse, is_explicit_query, filter, classify_scan, classify,
  is_build_script, ordinary_crate, resolved_crate_name,
}
use rust_compile_time_instru.Discovery.Scan.{
  scan, step, extract_opt_value, step_extern, step_codegen, step_rest, note_extern, note_codegen,
  is_argument_consuming_flag,
}
use rust_compile_time_instru.Discovery.Outcome.{IsOrdinary, parse-IsOrdinary}
use rust_compile_time_instru.Cli.{parse_cli_invocation, without_message_format}
use rust_compile_time_instru.Cli.Arguments.{
  ChoosesOutput, ChoosesOutputJoined, app_args_verbatim, message_format_removed,
}
use rust_compile_time_instru.Driver.{compiler_args}
use rust_compile_time_instru.Strips.{Strips}
use rust_compile_time_instru.Driver.Controls.{Replaces, controls_replaced}
use rust_compile_time_instru.InstrumentRust.{Package, SelectedPackage}

abbrev pub rustc_args : List String
rustc_args =
    "--crate-name" ∷ "shop" ∷ "src/lib.rs" ∷ "--crate-type=lib" ∷ "-C" ∷ "metadata=8f3a"
    ∷ "--extern" ∷ "noprelude:opentelemetry=/t/o.rlib" ∷ []

abbrev pub shop : RustCrate
shop = record {
  crate_name = "shop";
  crate_types = "lib" ∷ [];
  edition = none;
  target = none;
  out_dir = none;
  source_file = "src/lib.rs";
  is_test = false;
  has_opentelemetry = true;
  has_tokio = false;
  has_otel_shim = false;
  metadata_hash = some "8f3a";
  extra_filename = none;
}

abbrev pub shop_invocation : CrateInvocation
shop_invocation = record { unit = rust_crate shop; original_args = rustc_args }

pub parsed_shop : parse rustc_args ≡ ok shop_invocation
unfolding parse is_explicit_query filter classify_scan classify is_build_script ordinary_crate
    resolved_crate_name scan step extract_opt_value step_extern step_codegen step_rest note_extern
    note_codegen is_argument_consuming_flag strip_prefix starts_with ends_with before behind
    after_last
parsed_shop = refl

parse-IsOrdinary_example : IsOrdinary shop
parse-IsOrdinary_example = parse-IsOrdinary rustc_args shop_invocation shop parsed_shop refl

app_args_verbatim_example :
    parse_cli_invocation false ("run" ∷ "--release" ∷ "--" ∷ "--with-dependencies" ∷ "--" ∷ [])
    ≡ record {
      cargo_args = "run" ∷ "--release" ∷ [];
      app_args = "--with-dependencies" ∷ "--" ∷ [];
      has_app_args_separator = true;
      with_dependencies = false;
    }
app_args_verbatim_example =
    app_args_verbatim false "run" ("--release" ∷ []) ("--with-dependencies" ∷ "--" ∷ [])
      ((refl, refl), ((refl, refl), tt))

abbrev json_args : List String
json_args = "build" ∷ "--message-format" ∷ "json" ∷ "--message-format=short" ∷ []

message_format_removed_example :
    Strips ChoosesOutput ChoosesOutputJoined json_args (without_message_format json_args)
message_format_removed_example = message_format_removed json_args

abbrev driver_args : List String
driver_args = "driver" ∷ "rustc" ∷ "--cap-lints" ∷ "warn" ∷ "-O" ∷ []

controls_replaced_example :
    Replaces (λ p. p) (some "/s") driver_args (compiler_args (λ p. p) (some "/s") driver_args)
controls_replaced_example = controls_replaced (λ p. p) (some "/s") driver_args

abbrev packages : List Package
packages =
    record { id = "1"; name = "shop"; manifest_path = some "/w/Cargo.toml" }
    ∷ record { id = "2"; name = "dep"; manifest_path = none }
    ∷ []

abbrev chosen : List SelectedPackage
chosen = record { name = "shop"; source_root = "/w" } ∷ []

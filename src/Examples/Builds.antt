-- ===== src/Examples/Builds.antt =====
-- The compilation of `shop` under the wrapper.
use rust_compile_time_instru.Prelude.{
  String, ◌≡◌, refl, inl, inr, Bool, true, false, Option, none, some, [], ◌∷◌, ◌++◌, ok,
}
use rust_compile_time_instru.Text.{strip_prefix, starts_with, normalize, dash_to_underscore}
use rust_compile_time_instru.Sets.{contains}
use rust_compile_time_instru.Bytes.{codes}
use rust_compile_time_instru.Candidate.{DiscoveryReport, Candidate, free, allowed}
use rust_compile_time_instru.Discovery.{source_file, local_path_dependency}
use rust_compile_time_instru.Unit.{UnitKey, dir_name}
use rust_compile_time_instru.Session.Plan.{SessionPlan, empty_plan}
use rust_compile_time_instru.Session.Gates.{is_shim_unsafe}
use rust_compile_time_instru.Session.{filter, components, deepest, package_id_for_source}
use rust_compile_time_instru.Paths.{
  normal, root_dir, normalize_path, normalize_from, normalize_step, pop, same_components,
}
use rust_compile_time_instru.Ast.Visit.{no_stats}
use rust_compile_time_instru.Wrapper.{WrapperConfig, Environment, is_enabled, resolve}
use rust_compile_time_instru.Wrapper.Choice.{
  Circumstances, is_forbidden, choose_emitter, dependency_emitter, tier_2,
}
use rust_compile_time_instru.Wrapper.Allowed.{IsAllowed, emitter_sound}
use rust_compile_time_instru.Wrapper.Mirror.{
  FilePath, MirroredCrateInfo, Surroundings, mirror_base_of, mirror_and_transform,
  strip_prefix as strip_path, join, is_inside, is_in_tree_of, relative_to, rel_source_of,
  are_identical, canonicalize, render,
}
use rust_compile_time_instru.Wrapper.Run.{Machine}
use rust_compile_time_instru.Wrapper.Runs.{Runs}
use rust_compile_time_instru.Wrapper.Untouched.{IsUntouched, tools_untouched, owned_untouched}
use rust_compile_time_instru.Examples.Commands.{rustc_args, shop_invocation, parsed_shop}

abbrev load : Candidate
load = record {
  function_name = codes "load";
  source_file = codes "/w/src/lib.rs";
  byte_range = record { start = 0; stop = 40 };
  body_byte_range = record { start = 10; stop = 40 };
  kind = free;
  is_async = false;
  is_generic = false;
  has_enclosing_generics = false;
  returns_result = false;
  returns_mut_reference = false;
  returns_reference_or_lifetime = false;
}

abbrev report : DiscoveryReport
report = record {
  crate_name = codes "shop";
  source_file = codes "/w/src/lib.rs";
  unsafe_policy = allowed;
  is_no_std = false;
  has_colliding_symbols = false;
  skipped_stats = no_stats;
  candidates = load ∷ [];
  spawn_sites = [];
}

abbrev plan : SessionPlan
plan = record empty_plan {
  workspace_package_ids = "shop 1" ∷ [];
  has_otel_shim_provider = true;
  package_manifest_dirs = ("shop 1", "/w") ∷ [];
}

abbrev circumstances : Circumstances
circumstances = record {
  crate_name = "dep";
  edition = some "2021";
  role = local_path_dependency;
  has_otel = false;
  has_otel_shim = false;
  preflight_failed = false;
  use_sentinel = false;
  native_otel_enforced = false;
  dependency_only = false;
  rlib = none;
}

emitted : choose_emitter plan report circumstances ≡ some (tier_2 plan report circumstances)
unfolding choose_emitter dependency_emitter is_shim_unsafe normalize dash_to_underscore contains
emitted = refl

emitter_sound_example :
    (false ≡ false)
    × (false ≡ false)
    × (false ≡ false)
    × (is_forbidden allowed ≡ false)
    × IsAllowed plan report circumstances (tier_2 plan report circumstances)
emitter_sound_example =
    emitter_sound plan report circumstances (tier_2 plan report circumstances) emitted

abbrev root : FilePath
root = root_dir ∷ normal "w" ∷ []

abbrev around : Surroundings
around = record {
  files = record { canonicalize = λ p. none; is_file = λ p. true };
  canonical_of = λ p. root_dir ∷ normal "w" ∷ normal "src" ∷ normal "lib.rs" ∷ [];
  write_tree = λ dir mirror. true;
  exists = λ p. true;
  temp_dir = root_dir ∷ normal "tmp" ∷ [];
  pid = "7";
}

abbrev source : FilePath
source = normal "src" ∷ normal "lib.rs" ∷ []

abbrev unit : UnitKey
unit = record { crate_name = "shop"; metadata_hash = some "8f3a" }

abbrev mirror : MirroredCrateInfo
mirror = record {
  new_root = mirror_base_of root (root_dir ∷ normal "tmp" ∷ []) "7" unit none ++ source;
  mirror_base = mirror_base_of root (root_dir ∷ normal "tmp" ∷ []) "7" unit none;
  base_rel_dir = root;
  is_in_tree = true;
  source_was_relative = true;
  crate_name = "shop";
  extra_filename = none;
}

abbrev config : WrapperConfig
config = record { rustc_binary = "rustc"; rustc_args = rustc_args; debug_output = false }

abbrev environment : Bool → Option String → Environment
environment guard dependencies = record {
  rustc = none;
  instrument_debug = none;
  guard_is_set = guard;
  dependencies = dependencies;
  registry = none;
  sentinel_mode = false;
  native_otel = false;
  current_dir = "/w";
}

abbrev machine : Machine
machine = record {
  files = record { canonicalize = λ p. none; is_file = λ p. false };
  exists = λ p. true;
  load_or_create = λ out. plan;
  analyze_source_file = λ name path. some report;
  check_application_preflight = λ name path. false;
  mirror = λ r. ok mirror;
  rustc = λ binary args. some (some 0);
}

tools_untouched_example : IsUntouched (environment true none) machine config
tools_untouched_example = tools_untouched (environment true none) machine config (inl refl)

known :
    package_id_for_source machine.files plan (resolve (environment false (some "1")) "src/lib.rs")
    ≡ some "shop 1"
unfolding package_id_for_source filter components deepest resolve strip_prefix starts_with
known = refl

enabled : is_enabled (some "1") ≡ true
unfolding is_enabled
enabled = refl

in_workspace : contains plan.workspace_package_ids "shop 1" ≡ true
unfolding contains
in_workspace = refl

sourced : source_file shop_invocation.unit ≡ some "src/lib.rs"
unfolding source_file
sourced = refl

owned_untouched_example : IsUntouched (environment false (some "1")) machine config
owned_untouched_example =
    owned_untouched (environment false (some "1")) machine config shop_invocation "src/lib.rs"
      enabled parsed_shop sourced (inr ("shop 1", known, inl in_workspace))

mirrored : mirror_and_transform around root source "shop" unit none none report ≡ ok mirror
unfolding mirror_and_transform mirror_base_of strip_path join is_inside is_in_tree_of relative_to
    rel_source_of are_identical canonicalize render dir_name normalize_path normalize_from
    normalize_step pop same_components
mirrored = refl

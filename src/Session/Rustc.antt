-- ===== src/Session/Rustc.antt =====
-- cargo-instrument/src/session.rs: what the session reads off the arguments of rustc.
use rust_compile_time_instru.Prelude.{
  String, Bool, true, false, not, ◌&&◌, ◌||◌, Option, none, some, List, [], ◌∷◌, str_eq,
  if◌then◌else◌,
}
use rust_compile_time_instru.Text.{strip_prefix, starts_with, normalize, before, behind, split_once}

pub record R4Profile : Type 0 where
  pub opt_level : String
  pub debug_assertions : Bool
  pub overflow_checks : Bool
  pub test : Bool

abbrev same_bool : Bool → Bool → Bool
same_bool true b = b
same_bool false b = not b

-- The derived `==`.
abbrev pub same_profile : R4Profile → R4Profile → Bool
same_profile p q =
    str_eq p.opt_level q.opt_level
    && (same_bool p.debug_assertions q.debug_assertions
        && (same_bool p.overflow_checks q.overflow_checks && same_bool p.test q.test))

abbrev pub same_target : Option String → Option String → Bool
same_target none none = true
same_target (some a) (some b) = str_eq a b
same_target _ _ = false

abbrev head : List String → Option String
head [] = none
head (a ∷ args) = some a

-- The argument behind the first `--target`.
unfoldable pub split_target : List String → Option (Option String)
split_target [] = none
split_target (a ∷ args) =
    let rest = split_target args in if str_eq a "--target" then some (head args) else rest

unfoldable pub joined_target : List String → Option String
joined_target [] = none
joined_target (a ∷ args) =
    let rest = joined_target args in
    elim (strip_prefix a "--target=") [ some t ↦ some t | none ↦ rest ]

unfoldable pub rustc_target : List String → Option String
rustc_target args = elim (split_target args) [
  | some (some t) ↦ some t
  | some none ↦ joined_target args
  | none ↦ joined_target args
]

-- The variables of the loop of `rustc_profile`.
pub record Flags : Type 0 where
  pub opt_level : Option String
  pub debug_assertions : Option Bool
  pub overflow_checks : Option Bool
  pub cfg_debug_assertions : Bool
  pub test : Bool

abbrev is_on : String → Bool
is_on v = str_eq v "on" || str_eq v "true"

unfoldable pub note_codegen : String → Flags → Flags
note_codegen c f = elim (strip_prefix c "opt-level=") [
  | some v ↦ record f { opt_level = some v }
  | none ↦ elim (strip_prefix c "overflow-checks=") [
    | some v ↦ record f { overflow_checks = some (is_on v) }
    | none ↦ elim (strip_prefix c "debug-assertions=") [
      | some v ↦ record f { debug_assertions = some (is_on v) }
      | none ↦ f
    ]
  ]
]

abbrev note_option : Option String → Flags → Flags
note_option none f = f
note_option (some c) f = note_codegen c f

abbrev is_debug_cfg : Option String → Bool
is_debug_cfg none = false
is_debug_cfg (some v) = str_eq v "debug_assertions"

unfoldable pub note_arg : String → Option String → Flags → Flags
note_arg a next f =
    let codegen : Option String = if str_eq a "-C" then next else strip_prefix a "-C" in
    let g : Flags = note_option codegen f in
    record g {
      cfg_debug_assertions =
          g.cfg_debug_assertions
          || ((str_eq a "--cfg" && is_debug_cfg next) || str_eq a "--cfg=debug_assertions");
      test = g.test || str_eq a "--test";
    }

unfoldable pub scan_flags : List String → Flags → Flags
scan_flags [] f = f
scan_flags (a ∷ args) f = scan_flags args (note_arg a (head args) f)

abbrev or_text : Option String → String → String
or_text none d = d
or_text (some v) d = v

abbrev or_bool : Option Bool → Bool → Bool
or_bool none d = d
or_bool (some v) d = v

unfoldable pub rustc_profile : List String → R4Profile
rustc_profile args =
    let f = scan_flags args (record {
      opt_level = none;
      debug_assertions = none;
      overflow_checks = none;
      cfg_debug_assertions = false;
      test = false;
    }) in
    let opt_level = or_text f.opt_level "0" in
    let codegen = or_bool f.debug_assertions (str_eq opt_level "0") in
    record {
      opt_level = opt_level;
      debug_assertions = codegen || f.cfg_debug_assertions;
      overflow_checks = or_bool f.overflow_checks codegen;
      test = f.test;
    }

abbrev pub same_crate : String → String → Bool
same_crate a b = str_eq a b || str_eq (normalize a) (normalize b)

unfoldable pub spec_matches_extern_binding : String → String → Bool
spec_matches_extern_binding spec name = same_crate (behind b':' (before b'=' spec)) name

-- The loop of `rustc_has_extern_binding`; `true` is that the argument is the value of an `--extern`.
unfoldable pub binding_from : Bool → List String → String → Bool
binding_from value [] name = false
binding_from true (a ∷ args) name =
    spec_matches_extern_binding a name || binding_from false args name
binding_from false (a ∷ args) name =
    let rest = binding_from (str_eq a "--extern") args name in
    elim (strip_prefix a "--extern=") [
      | none ↦ rest
      | some spec ↦ spec_matches_extern_binding spec name || rest
    ]

unfoldable pub rustc_has_extern_binding : List String → String → Bool
rustc_has_extern_binding args name = binding_from false args name

-- `trim_matches('"')`
unfoldable pub trim_quotes_start : String → String
trim_quotes_start String.[] = ""
trim_quotes_start (String.◌∷◌ c s) =
    let rest = trim_quotes_start s in
    if starts_with (String.◌∷◌ c s) "\"" then rest else String.◌∷◌ c s

unfoldable pub trim_quotes_end : String → String
trim_quotes_end String.[] = ""
trim_quotes_end (String.◌∷◌ c s) =
    let rest = trim_quotes_end s in
    if str_eq (trim_quotes_start (String.◌∷◌ c s)) "" then "" else String.◌∷◌ c rest

unfoldable pub parse_extern_spec_path : String → String → Option String
parse_extern_spec_path spec name = elim (split_once b'=' spec) [
  | none ↦ none
  | some p ↦
      if same_crate (behind b':' (p.0)) name
      then some (trim_quotes_end (trim_quotes_start (p.1)))
      else none
]

abbrev or_path : Option String → Option String → Option String
or_path none p = p
or_path (some q) p = some q

unfoldable pub path_from : Bool → List String → String → Option String
path_from value [] name = none
path_from true (a ∷ args) name = or_path (parse_extern_spec_path a name) (path_from false args name)
path_from false (a ∷ args) name =
    let rest = path_from (str_eq a "--extern") args name in
    elim (strip_prefix a "--extern=") [
      | none ↦ rest
      | some spec ↦ or_path (parse_extern_spec_path spec name) rest
    ]

unfoldable pub extern_crate_path : List String → String → Option String
extern_crate_path args name = path_from false args name

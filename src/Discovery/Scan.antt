-- ===== src/Discovery/Scan.antt =====
-- cargo-instrument/src/discovery.rs: the loop of `CrateInvocation::parse` over the arguments. `i += 2`
-- is a step that says to skip the next argument.
use rust_compile_time_instru.Prelude.{
  String, ◌<>◌, Bool, true, false, ◌||◌, Option, none, some, List, [], ◌∷◌, ◌++◌, str_eq,
  if◌then◌else◌, any,
}
use rust_compile_time_instru.Text.{strip_prefix, starts_with, ends_with, before, behind}

-- The variables that the loop assigns.
pub record Scanned : Type 0 where
  pub crate_name : Option String
  pub crate_types : List String
  pub edition : Option String
  pub target : Option String
  pub out_dir : Option String
  pub is_test : Bool
  pub has_opentelemetry : Bool
  pub has_tokio : Bool
  pub has_otel_shim : Bool
  pub metadata_hash : Option String
  pub extra_filename : Option String
  pub positional_source : Option String

abbrev pub nothing_scanned : Scanned
nothing_scanned = record {
  crate_name = none;
  crate_types = [];
  edition = none;
  target = none;
  out_dir = none;
  is_test = false;
  has_opentelemetry = false;
  has_tokio = false;
  has_otel_shim = false;
  metadata_hash = none;
  extra_filename = none;
  positional_source = none;
}

-- The variables after an argument, and whether the next one is consumed.
abbrev pub Step : Type 0
Step = Scanned × Bool

-- `extract_opt_value`, of the argument and the one after it.
unfoldable pub extract_opt_value : String → Option String → String → Option (String × Bool)
extract_opt_value arg next flag =
    if str_eq arg flag
    then elim next [ none ↦ none | some v ↦ some (v, true) ]
    else elim (strip_prefix arg (flag <> "=")) [ none ↦ none | some v ↦ some (v, false) ]

unfoldable pub is_argument_consuming_flag : String → Bool
is_argument_consuming_flag arg = any (str_eq arg) (
    "-o" ∷ "-L" ∷ "-C" ∷ "-A" ∷ "-W" ∷ "-D" ∷ "-F" ∷ "--color" ∷ "--error-format" ∷ "--json"
    ∷ "--emit" ∷ "--cap-lints" ∷ "--explain" ∷ "--check-cfg" ∷ "--remap-path-prefix" ∷ [])

-- The crate that an `--extern` names, behind its options and before its path.
unfoldable pub note_extern : String → Scanned → Scanned
note_extern spec s =
    let extern_crate = behind b':' (before b'=' spec) in
    if str_eq extern_crate "opentelemetry"
    then record s { has_opentelemetry = true }
    else if str_eq extern_crate "tokio"
    then record s { has_tokio = true }
    else if str_eq extern_crate "otel_shim" || str_eq extern_crate "otel-shim"
    then record s { has_otel_shim = true }
    else s

-- `metadata=` and `extra-filename=` behind a `-C`; `none` for any other codegen option.
unfoldable pub note_codegen : String → Scanned → Option Scanned
note_codegen option s = elim (strip_prefix option "metadata=") [
  | some v ↦ some (record s { metadata_hash = some v })
  | none ↦ elim (strip_prefix option "extra-filename=") [
    | some v ↦ some (record s { extra_filename = some v })
    | none ↦ none
  ]
]

abbrev pub or_same : Option Scanned → Scanned → Scanned
or_same none s = s
or_same (some t) s = t

-- The end of the loop's body: flags that consume, other flags, a source file.
unfoldable pub step_rest : String → Scanned → Step
step_rest arg s =
    if is_argument_consuming_flag arg
    then (s, true)
    else if starts_with arg "-"
    then (s, false)
    else if ends_with arg ".rs"
    then (record s { positional_source = some arg }, false)
    else (s, false)

unfoldable pub step_codegen : String → Option String → Scanned → Step
step_codegen arg next s =
    if str_eq arg "-C"
    then elim next [
      | none ↦ step_rest arg s
      | some option ↦ (or_same (note_codegen option s) s, true)
    ]
    else elim (strip_prefix arg "-C") [
      | none ↦ step_rest arg s
      | some option ↦ elim (note_codegen option s) [ none ↦ step_rest arg s | some t ↦ (t, false) ]
    ]

unfoldable pub step_extern : String → Option String → Scanned → Step
step_extern arg next s =
    if str_eq arg "--extern"
    then elim next [ none ↦ step_codegen arg none s | some spec ↦ (note_extern spec s, true) ]
    else elim (strip_prefix arg "--extern=") [
      | none ↦ step_codegen arg next s
      | some spec ↦ (note_extern spec s, false)
    ]

-- The chain of `if let Some(val) = extract_opt_value(..)`.
abbrev pub taken : Option (String × Bool) → (String → Scanned) → Step → Step
taken none set rest = rest
taken (some v) set rest = (set (v.0), v.1)

unfoldable pub step : String → Option String → Scanned → Step
step arg next s =
    if str_eq arg "--test"
    then (record s { is_test = true }, false)
    else taken (extract_opt_value arg next "--crate-name") (λ v. record s { crate_name = some v })
        (taken (extract_opt_value arg next "--crate-type")
          (λ v. record s { crate_types = s.crate_types ++ v ∷ [] })
          (taken (extract_opt_value arg next "--edition") (λ v. record s { edition = some v })
            (taken (extract_opt_value arg next "--target") (λ v. record s { target = some v })
              (taken (extract_opt_value arg next "--out-dir") (λ v. record s { out_dir = some v })
                (step_extern arg next s)))))

abbrev pub head : List String → Option String
head [] = none
head (a ∷ args) = some a

-- The loop from an argument on; `true` is to pass over the first.
unfoldable pub scan : Bool → List String → Scanned → Scanned
scan skip [] s = s
scan true (a ∷ args) s = scan false args s
scan false (a ∷ args) s = let r = step a (head args) s in scan (r.1) args (r.0)

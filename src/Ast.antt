-- ===== src/Ast.antt =====
-- cargo-instrument/src/ast.rs: what the analysis reads from the attributes of a file, a module or a
-- function. An attribute is what `syn` gives of it.
pub mod Tree
pub mod Names
pub mod Visit
pub mod Accounts
pub mod Stands
pub mod Eligible
use Prim.Native.Char.{code}
use rust_compile_time_instru.Prelude.{
  String, Bool, true, false, not, ◌&&◌, ◌||◌, Option, none, some, List, [], ◌∷◌, ◌==◌, str_eq,
  if◌then◌else◌, any,
}
use rust_compile_time_instru.Bytes.{Bytes, codes, trim_start}
use rust_compile_time_instru.Bytes
use rust_compile_time_instru.Text.{contains}
use rust_compile_time_instru.Candidate.{UnsafePolicy, allowed, denied, forbidden}

-- `syn::Meta`; the literal of a name and value is there if it is a string.
pub data Meta : Type 0 where
  path : Meta
  list : (tokens : String) → Meta
  name_value : (literal : Option String) → Meta

pub record Attribute : Type 0 where
  pub is_inner : Bool
  pub segments : List String
  pub meta : Meta

abbrev is_one : List String → String → Bool
is_one (s ∷ []) name = str_eq s name
is_one _ name = false

-- `attr.path().is_ident(name)`
abbrev pub is_ident : Attribute → String → Bool
is_ident a name = is_one a.segments name

abbrev list_tokens : Meta → Option String
list_tokens (list tokens) = some tokens
list_tokens _ = none

abbrev lists : Meta → String → Bool
lists (list tokens) word = contains tokens word
lists _ word = false

-- The loop of `detect_unsafe_policy`, of whether unsafe code has been denied.
unfoldable pub unsafe_policy_from : Bool → List Attribute → UnsafePolicy
unsafe_policy_from is_denied [] = if is_denied then denied else allowed
unsafe_policy_from is_denied (a ∷ attrs) =
    let named = a.is_inner && lists a.meta "unsafe_code" in
    if named && is_ident a "forbid"
    then forbidden
    else unsafe_policy_from (is_denied || (named && is_ident a "deny")) attrs

unfoldable pub detect_unsafe_policy : List Attribute → UnsafePolicy
detect_unsafe_policy attrs = unsafe_policy_from false attrs

unfoldable pub split_commas : String → List String
split_commas String.[] = "" ∷ []
split_commas (String.◌∷◌ a s) =
    let rest = split_commas s in
    if code a == b',' then "" ∷ rest else elim rest [ [] ↦ [] | t ∷ more ↦ String.◌∷◌ a t ∷ more ]

abbrev pub is_blank : Bytes → Bool
is_blank s = elim (trim_start s) [ [] ↦ true | b ∷ more ↦ false ]

-- `part.trim() == word`, of a word without white space at its ends.
unfoldable pub trims_to : String → String → Bool
trims_to word part = elim (Bytes.strip_prefix (trim_start (codes part)) (codes word)) [
  | none ↦ false
  | some rest ↦ is_blank rest
]

abbrev is_no_std_meta : Attribute → Meta → Bool
is_no_std_meta a path = is_ident a "no_std"
is_no_std_meta a (list tokens) =
    is_ident a "cfg_attr" && any (trims_to "no_std") (split_commas tokens)
is_no_std_meta a (name_value literal) = false

unfoldable pub detect_no_std : List Attribute → Bool
detect_no_std attrs = any (λ a. a.is_inner && is_no_std_meta a a.meta) attrs

abbrev is_inline_meta : Meta → Bool
is_inline_meta path = true
is_inline_meta (list tokens) = not (contains tokens "never")
is_inline_meta (name_value literal) = false

unfoldable pub has_inline_attribute : List Attribute → Bool
has_inline_attribute attrs = any (λ a. is_ident a "inline" && is_inline_meta a.meta) attrs

unfoldable pub is_cfg_test : List Attribute → Bool
is_cfg_test attrs = any (λ a. is_ident a "test" || (is_ident a "cfg" && lists a.meta "test")) attrs

abbrev pub otel_abi_symbols : List String
otel_abi_symbols =
    "__otel_span_enter" ∷ "__otel_span_enter_v2" ∷ "__otel_span_exit" ∷ "__otel_span_set_error"
    ∷ "__otel_span_start" ∷ "__otel_span_end" ∷ "__otel_ctx_attach" ∷ "__otel_ctx_detach" ∷ []

abbrev is_abi_symbol : String → Bool
is_abi_symbol name = any (λ s. str_eq s name) otel_abi_symbols

abbrev exports_abi_symbol : Meta → Bool
exports_abi_symbol (name_value (some literal)) = is_abi_symbol literal
exports_abi_symbol _ = false

unfoldable pub is_colliding_symbol : String → List Attribute → Bool
is_colliding_symbol ident attrs =
    any
      (λ a.
        (is_ident a "no_mangle" && is_abi_symbol ident)
        || (is_ident a "export_name" && exports_abi_symbol a.meta))
      attrs

abbrev pub last_of : List String → Option String
last_of [] = none
last_of (s ∷ []) = some s
last_of (s ∷ t ∷ more) = last_of (t ∷ more)

abbrev is_instrument_name : Option String → Bool
is_instrument_name none = false
is_instrument_name (some n) =
    any (λ s. str_eq s n) ("instrument" ∷ "instrument_span" ∷ [])
    || any (λ s. str_eq s n) ("propagate_context" ∷ [])

unfoldable pub has_instrument_attribute : List Attribute → Bool
has_instrument_attribute attrs = any (λ a. is_instrument_name (last_of a.segments)) attrs

abbrev literal_of : Meta → Option String
literal_of (name_value literal) = literal
literal_of _ = none

unfoldable pub extract_path_attribute : List Attribute → Option String
extract_path_attribute [] = none
extract_path_attribute (a ∷ attrs) =
    let rest = extract_path_attribute attrs in
    if is_ident a "path" then elim (literal_of a.meta) [ some p ↦ some p | none ↦ rest ] else rest

-- ===== src/Session/Specs.antt =====
-- cargo-instrument/src/session.rs: `resolve_package_spec`, and the selection that `build_session_plan` of
-- cargo-instrument/src/main.rs makes with it.
pub mod Fitting
pub mod Named
use rust_compile_time_instru.Prelude.{
  ℕ, zero, suc, ◌+◌, ◌-◌, ◌*◌, ◌/◌, ◌%◌, ◌^◌, ◌≤◌, ◌<◌, String, ◌<>◌, ◌≡◌, refl, sym, ap, ◌∙◌,
  subst, ◌≡⟨◌⟩◌, ◌∎, ◌≢◌, ◌↔◌, ◌⊎◌, inl, inr, Bool, true, false, not, ◌&&◌, ◌||◌, Option, none,
  some, List, [], ◌∷◌, ◌++◌, map, append_assoc, append-nil, arith, eq_iff, eq_refl, ltb, leb, ◌==◌,
  str_eq, if◌then◌else◌, ltb→lt, lt→ltb, leb→le, ==_iff, tests, Bool-cases, Option-cases, length,
  get_elem?, take, drop, length-append, take-append-drop, length-drop, any, every, All, All-append,
  Result, ok, err, Result-cases, ◌>>=◌,
}
use rust_compile_time_instru.Text.{normalize, starts_with, split_once}
use rust_compile_time_instru.Sets.{
  contains, insert, contains-cons, contains-head, contains-tail, contains-none, contains-insert,
  insert-head, insert-tail,
}
use rust_compile_time_instru.Session.Register.{Package}

pub data SpecError : Type 0 where
  no_match : SpecError
  ambiguous : (matches : List String) → SpecError

abbrev pub is_id : String → Option String → Bool
is_id id none = false
is_id id (some i) = str_eq i id

-- A package of the metadata with this id.
unfoldable pub has_id : List Package → String → Bool
has_id packages id = any (λ p. is_id id p.id) packages

-- The name, and the version behind `:` or else `@`.
unfoldable pub name_and_version : String → String × Option String
name_and_version spec = elim (split_once b':' spec) [
  | some p ↦ (p.0, some (p.1))
  | none ↦ elim (split_once b'@' spec) [ some p ↦ (p.0, some (p.1)) | none ↦ (spec, none) ]
]

abbrev pub is_version : String → Option String → Bool
is_version version none = true
is_version version (some required) = str_eq version required || starts_with version required

abbrev pub matches_fields :
    String → Option String → Option String → Option String → Option String → Option String
matches_fields name required (some id) (some n) (some version) =
    if (str_eq n name || str_eq (normalize n) (normalize name)) && is_version version required
    then some id
    else none
matches_fields name required _ _ _ = none

abbrev pub collected : Option String → List String → List String
collected none ids = ids
collected (some id) ids = id ∷ ids

-- The packages of this name and, if it is required, this version.
unfoldable pub matching : String → Option String → List Package → List String
matching name required [] = []
matching name required (p ∷ packages) =
    collected (matches_fields name required p.id p.name p.version) (matching name required packages)

abbrev pub only_one : List String → Result String SpecError
only_one [] = err no_match
only_one (id ∷ []) = ok id
only_one (id ∷ other ∷ more) = err (ambiguous (id ∷ other ∷ more))

unfoldable pub resolve_package_spec : String → List Package → Result String SpecError
resolve_package_spec spec packages =
    let n = name_and_version spec in
    if has_id packages spec then ok spec else only_one (matching (n.0) (n.1) packages)

-- The packages of all specs, if there are any and all can be resolved.
unfoldable pub resolve_all : List String → List Package → Option (List String)
resolve_all [] packages = some []
resolve_all (spec ∷ specs) packages = elim (resolve_package_spec spec packages) [
  | err e ↦ none
  | ok id ↦ elim (resolve_all specs packages) [ none ↦ none | some ids ↦ some (insert ids id) ]
]

unfoldable pub selected_ids : List String → Option (List Package) → Option (List String)
selected_ids [] packages = none
selected_ids (spec ∷ specs) none = none
selected_ids (spec ∷ specs) (some packages) = resolve_all (spec ∷ specs) packages

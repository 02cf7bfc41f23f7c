-- ===== src/Cli/Invalidate.antt =====
-- cargo-instrument/src/main.rs: `invalidate_packages`, up to what is given to `cargo clean`. A map from
-- names to lists of packages is the list of its names and the list of each.
pub mod Checks
pub mod Safe
pub mod Batches
use rust_compile_time_instru.Prelude.{
  ℕ, zero, suc, String, ◌<>◌, Bool, false, not, ◌&&◌, ◌||◌, Option, none, some, List, [], ◌∷◌, ◌++◌,
  map, ltb, ◌==◌, str_eq, if◌then◌else◌, length, take, drop, any, Result, ok, err, ◌>>=◌,
}
use rust_compile_time_instru.Text.{normalize, starts_with}
use rust_compile_time_instru.Sets.{contains, insert}
use rust_compile_time_instru.Session.{lookup}
use rust_compile_time_instru.Cli.{clean_forward_flags}
use rust_compile_time_instru.Session.Register.{Package}

pub data CleanError : Type 0 where
  no_package_name : (id : String) → CleanError
  shares_retained_name : (name : String) → CleanError
  multiple_versions : (name : String) → CleanError
  clean_failed : CleanError

abbrev pair_of : Option String → Option String → Option (String × String)
pair_of (some id) (some name) = some (id, name)
pair_of _ _ = none

abbrev collected : Option (String × String) → List (String × String) → List (String × String)
collected none found = found
collected (some p) found = p ∷ found

-- The packages with an id and a name, in the order of the metadata.
unfoldable pub identified : List Package → List (String × String)
identified [] = []
identified (p ∷ packages) = collected (pair_of p.id p.name) (identified packages)

-- The map from an id to its name, in which a later package replaces an earlier one.
unfoldable pub names_from : List (String × String) → List (String × String) → List (String × String)
names_from names [] = names
names_from names (p ∷ found) = names_from (p ∷ names) found

-- `all_packages_by_name`, of a name.
unfoldable pub ids_named : List (String × String) → String → List String
ids_named [] name = []
ids_named (p ∷ found) name =
    let rest = ids_named found name in if str_eq (p.1) name then p.0 ∷ rest else rest

-- `find(|p| p["id"] == id)?["name"]`
unfoldable pub name_of : List Package → String → Option String
name_of [] id = none
name_of (p ∷ packages) id =
    let rest = name_of packages id in
    elim p.id [ none ↦ rest | some i ↦ if str_eq i id then p.name else rest ]

abbrev named : Option String → List String → List String
named none names = names
named (some n) names = insert names n

unfoldable pub retained_names : List Package → List String → List String
retained_names packages [] = []
retained_names packages (id ∷ ids) = named (name_of packages id) (retained_names packages ids)

-- The keys of `packages_by_name`.
unfoldable pub names_to_clean :
    List (String × String) → List String → Result (List String) CleanError
names_to_clean names [] = ok []
names_to_clean names (id ∷ ids) = elim (lookup names id) [
  | none ↦ err (no_package_name id)
  | some n ↦ names_to_clean names ids >>= (λ rest. ok (insert rest n))
]

abbrev is_name : String → Option String → Bool
is_name n none = false
is_name n (some m) = str_eq m n

-- `packages_by_name`, of a name.
unfoldable pub ids_to_clean : List (String × String) → List String → String → List String
ids_to_clean names [] n = []
ids_to_clean names (id ∷ ids) n =
    let rest = ids_to_clean names ids n in if is_name n (lookup names id) then id ∷ rest else rest

-- The first safety check, of every name.
unfoldable pub shared_name : List String → List String → Option String
shared_name retained [] = none
shared_name retained (n ∷ names) =
    let rest = shared_name retained names in if contains retained n then some n else rest

-- The second: how many packages of a name there are, and how many of them are to be cleaned.
abbrev is_ambiguous : List String → List String → Bool
is_ambiguous all cleaned = ltb 1 (length all) && not (length cleaned == length all)

unfoldable pub ambiguous_name : (String → Bool) → List String → Option String
ambiguous_name ambiguous [] = none
ambiguous_name ambiguous (n ∷ names) =
    let rest = ambiguous_name ambiguous names in if ambiguous n then some n else rest

-- The names that `cargo clean` gets, before it is run.
unfoldable pub checked_names :
    List String → List String → List Package → Result (List String) CleanError
checked_names package_ids retained_ids packages =
    let found = identified packages in
    let names = names_from [] found in
    names_to_clean names package_ids >>= (λ keys.
      elim (shared_name (retained_names packages retained_ids) keys) [
        | some n ↦ err (shares_retained_name n)
        | none ↦
            elim (ambiguous_name
              (λ n. is_ambiguous (ids_named found n) (ids_to_clean names package_ids n)) keys) [
                | some n ↦ err (multiple_versions n)
                | none ↦ ok keys
              ]
      ])

-- The arguments of `cargo clean` for some names.
unfoldable pub package_flags : List String → List String
package_flags [] = []
package_flags (n ∷ names) = "--package" ∷ n ∷ package_flags names

unfoldable pub clean_args : String → List String → List String → List String
clean_args target_dir cargo_args names =
    ("clean" ∷ "--target-dir" ∷ target_dir ∷ clean_forward_flags cargo_args) ++ package_flags names

-- `chunks(n)`, of a positive `n`, on fuel.
unfoldable pub chunks : ℕ → ℕ → List String → List (List String)
chunks zero n names = []
chunks (suc fuel) n [] = []
chunks (suc fuel) n (a ∷ names) = take n (a ∷ names) ∷ chunks fuel n (drop n (a ∷ names))

-- The runs of `cargo clean`, up to the first that fails.
unfoldable pub clean_all :
    (List String → Bool) → List (List String) → Result (List (List String)) CleanError
clean_all succeeds [] = ok []
clean_all succeeds (args ∷ runs) =
    let rest = clean_all succeeds runs in
    if succeeds args then rest >>= (λ done. ok (args ∷ done)) else err clean_failed

-- `invalidate_packages`; the result is the arguments of the runs of `cargo clean`.
unfoldable pub invalidate_packages :
    (List String → Bool)
    → (package_ids retained_ids : List String) → List Package
    → (cargo_args : List String) → (target_dir : String) → Result (List (List String)) CleanError
invalidate_packages succeeds [] retained_ids packages cargo_args target_dir = ok []
invalidate_packages succeeds (id ∷ ids) retained_ids packages cargo_args target_dir =
    checked_names (id ∷ ids) retained_ids packages >>= (λ names.
      clean_all succeeds (map (clean_args target_dir cargo_args) (chunks (length names) 50 names)))

-- A file beside the artifacts that is removed with the packages of these names.
unfoldable pub is_stale_marker : List String → String → Bool
is_stale_marker names file =
    any (λ n. str_eq file (".instrumented_" <> normalize n)) names
    || any (λ n. starts_with file (".cargo-instrument-transformed-" <> normalize n)) names

-- ===== src/Cli/Invalidate/Safe.antt =====
-- What `cargo clean` can remove when the safety checks of `invalidate_packages` have passed.
use rust_compile_time_instru.Prelude.{
  String, ◌≡◌, subst, inl, inr, Bool, true, false, none, some, List, [], arith, Bool-cases,
  Option-cases, ok, Result-cases,
}
use rust_compile_time_instru.Sets.{contains}
use rust_compile_time_instru.Sets.Count.{IsDistinct, contains-all}
use rust_compile_time_instru.Session.{lookup}
use rust_compile_time_instru.Session.Register.{Package}
use rust_compile_time_instru.Cli.Invalidate.{
  identified, names_from, ids_named, name_of, retained_names, names_to_clean, ids_to_clean,
  shared_name, is_ambiguous, ambiguous_name, checked_names,
}
use rust_compile_time_instru.Cli.Invalidate.Checks.{
  lookup-named, no_lookup, cleaned_sound, cleaned-IsDistinct, keys-Keyed, retained_names-has,
  shared_name-none, ambiguous_name-none, all_cleaned,
}

module _ (package_ids retained_ids : List String) (packages : List Package) where
  abbrev ambiguous : String → Bool
  ambiguous n =
      is_ambiguous (ids_named (identified packages) n)
        (ids_to_clean (names_from [] (identified packages)) package_ids n)

  checks_passed :
      (keys : List String)
      → checked_names package_ids retained_ids packages ≡ ok keys
      → (names_to_clean (names_from [] (identified packages)) package_ids ≡ ok keys)
        × (shared_name (retained_names packages retained_ids) keys ≡ none)
        × (ambiguous_name ambiguous keys ≡ none)
  unfolding checked_names
  checks_passed keys h =
      elim (Result-cases (names_to_clean (names_from [] (identified packages)) package_ids)) [
        | inl e ↦ let f = e.1 in absurd (ground arith)
        | inr k ↦
            let f = k.1 in
            elim (Option-cases (shared_name (retained_names packages retained_ids) (k.0))) [
              | inr n ↦ let g = n.1 in absurd (ground arith)
              | inl n ↦ elim (Option-cases (ambiguous_name ambiguous (k.0))) [
                | inr q ↦ let g = q.1 in absurd (ground arith)
                | inl q ↦
                    let same : k.0 ≡ keys = ground arith in
                    subst
                      (λ x.
                        (names_to_clean (names_from [] (identified packages)) package_ids ≡ ok x)
                        × (shared_name (retained_names packages retained_ids) x ≡ none)
                        × (ambiguous_name ambiguous x ≡ none))
                      same (k.1, n, q)
              ]
            ]
      ]

-- What `cargo clean` of these names removes, and what it leaves.
abbrev pub Cleans : List String → List String → List Package → List String → Type 0
Cleans package_ids retained_ids packages keys =
    ((id : String)
      → contains package_ids id ≡ true
      → (n : String) × (lookup (names_from [] (identified packages)) id ≡ some n)
        × (contains keys n ≡ true))
    × ((id n : String)
        → contains retained_ids id ≡ true
        → name_of packages id ≡ some n
        → contains keys n ≡ false)
    × ((id n : String)
        → contains keys n ≡ true
        → contains (ids_named (identified packages) n) id ≡ true
        → contains package_ids id ≡ true)

-- When the checks pass, the names that are cleaned are those of the packages to clean, each of which has
-- one; no retained package has one of these names; and every package of the metadata that has
-- one of them, so that `cargo clean` removes it, is among the packages to clean.
pub cleaned_exactly :
    (package_ids retained_ids : List String) (packages : List Package) (keys : List String)
    → IsDistinct package_ids
    → checked_names package_ids retained_ids packages ≡ ok keys
    → Cleans package_ids retained_ids packages keys
cleaned_exactly package_ids retained_ids packages keys distinct h =
    let names = names_from [] (identified packages) in
    let c = checks_passed package_ids retained_ids packages keys h in
    let keyed = keys-Keyed names package_ids keys c.0 in
    (
      keyed.0,
      (λ id n kept name. elim (Bool-cases (contains keys n)) [
        | inr k ↦ k
        | inl k ↦
            let no = shared_name-none (retained_names packages retained_ids) keys n c.1 k in
            absurd (cc (no, retained_names-has packages retained_ids id n kept name))
      ]),
      λ id n k there.
          let some_id = keyed.1 n k in
          let clear =
            ambiguous_name-none (ambiguous package_ids retained_ids packages) keys n c.2 k in
          let enough =
            all_cleaned _ (ids_to_clean names package_ids n) (some_id.0) clear some_id.1 in
          let all =
            contains-all (ids_to_clean names package_ids n) (ids_named (identified packages) n)
              (cleaned-IsDistinct names package_ids n distinct)
              (λ a m.
                elim (lookup-named (identified packages) [] a n
                  (cleaned_sound names package_ids n a m).1) [
                    | inl l ↦ l
                    | inr l ↦ absurd (no_lookup a n l)
                  ])
              enough id there in
          (cleaned_sound names package_ids n id all).0,
    )

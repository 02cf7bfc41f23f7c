-- ===== src/InstrumentRust.antt =====
-- cargo-instrument/src/bin/instrument_rust.rs: the options of `cargo instrument-rust` and the packages
-- that they select. What `cargo metadata` reports of a package is a record of the fields read.
pub mod Selection
use rust_compile_time_instru.Prelude.{
  String, ◌<>◌, Bool, true, false, ◌&&◌, ◌||◌, Option, none, some, List, [], ◌∷◌, ◌++◌, str_eq,
  if◌then◌else◌, any, Result, ok, err, ◌>>=◌,
}

pub record Options : Type 0 where
  pub packages : List String
  pub offline : Bool

-- `Options::parse` prints the help and leaves, or returns.
pub data Parsed : Type 0 where
  help : Parsed
  parsed : Result Options String → Parsed

abbrev pub usage : String
usage = "usage: cargo instrument-rust --apply [--package <workspace-package>] [--offline]"

abbrev pub is_help : String → Bool
is_help a = str_eq a "--help" || str_eq a "-h"

abbrev pub is_package_flag : String → Bool
is_package_flag a = str_eq a "--package" || str_eq a "-p"

-- The loop; `true` is that the argument is the value of a `--package`.
unfoldable pub parse_rest : Bool → List String → Options → Result Options String
parse_rest true [] o = err "--package requires a package name"
parse_rest false [] o = ok o
parse_rest true (a ∷ args) o = parse_rest false args (record o { packages = o.packages ++ a ∷ [] })
parse_rest false (a ∷ args) o =
    let rest =
      parse_rest (is_package_flag a) args
        (if str_eq a "--offline" then record o { offline = true } else o) in
    if is_package_flag a || str_eq a "--offline"
    then rest
    else if is_help a
    then err usage
    else err ("unsupported argument `" <> a <> "`\n" <> usage)

abbrev pub no_options : Options
no_options = record { packages = []; offline = false }

abbrev pub parse_apply : List String → Result Options String
parse_apply [] = err usage
parse_apply (a ∷ args) =
    let rest = parse_rest false args no_options in if str_eq a "--apply" then rest else err usage

unfoldable pub parse : List String → Parsed
parse [] = parsed (err usage)
parse (first ∷ args) =
    if is_help first
    then help
    else if str_eq first "instrument-rust"
    then parsed (parse_apply args)
    else parsed (parse_apply (first ∷ args))

-- A package of the metadata, with `unwrap_or_default` done for its id and name.
pub record Package : Type 0 where
  pub id : String
  pub name : String
  pub manifest_path : Option String

pub record SelectedPackage : Type 0 where
  pub name : String
  pub source_root : String

abbrev pub has : List String → String → Bool
has xs a = any (str_eq a) xs

abbrev pub is_requested : List String → Package → Bool
is_requested [] p = true
is_requested (r ∷ requested) p = has (r ∷ requested) p.name

abbrev pub is_selected : List String → List String → Package → Bool
is_selected members requested p = is_requested requested p && has members p.id

-- The source root of a selected package; `parent` is `Path::parent`.
abbrev pub selected : (String → Option String) → Package → Result SelectedPackage String
selected parent p = elim p.manifest_path [
  | none ↦ err ("package `" <> p.name <> "` has no manifest path")
  | some manifest ↦ elim (parent manifest) [
    | none ↦ err ("package `" <> p.name <> "` has no manifest parent")
    | some root ↦ ok (record { name = p.name; source_root = root })
  ]
]

-- The loop over the packages.
unfoldable pub select :
    (String → Option String)
    → List String
    → List String
    → List Package
    → Result (List SelectedPackage) String
select parent members requested [] = ok []
select parent members requested (p ∷ packages) =
    let rest = select parent members requested packages in
    if is_selected members requested p
    then selected parent p >>= (λ s. rest >>= (λ ss. ok (s ∷ ss)))
    else rest

-- The loop over the requested names.
unfoldable pub check_requested :
    List String → List SelectedPackage → Result (List SelectedPackage) String
check_requested [] found = ok found
check_requested (r ∷ requested) found =
    let rest = check_requested requested found in
    if any (λ s. str_eq s.name r) found
    then rest
    else err ("`" <> r <> "` is not a workspace package; P2.3 edits only first-party source")

abbrev pub check_found : List String → List SelectedPackage → Result (List SelectedPackage) String
check_found requested [] = err "no selected workspace packages matched --package"
check_found requested (s ∷ found) = check_requested requested (s ∷ found)

-- `selected_workspace_packages`, of metadata that reports both lists.
unfoldable pub selected_workspace_packages :
    (String → Option String)
    → List String
    → List Package
    → List String
    → Result (List SelectedPackage) String
selected_workspace_packages parent members packages requested =
    select parent members requested packages >>= (λ found. check_found requested found)

-- ===== src/Wrapper/Mirror.antt =====
-- cargo-instrument/src/wrapper.rs: where `mirror_and_transform_crate_sources` puts the copy of a crate, and
-- when it gives up. A path is the list of its components. That the files are copied and transformed
-- (`write_tree`), and which exist then, are arguments.
use rust_compile_time_instru.Prelude.{
  String, ◌<>◌, Bool, true, false, not, ◌&&◌, ◌||◌, Option, none, some, List, [], ◌∷◌, ◌++◌, map,
  if◌then◌else◌, every, Result, ok, err,
}
use rust_compile_time_instru.Bytes.{Bytes}
use rust_compile_time_instru.Candidate.{DiscoveryReport}
use rust_compile_time_instru.Unit.{UnitKey}
use rust_compile_time_instru.Unit
use rust_compile_time_instru.Session.{Files}
use rust_compile_time_instru.Paths.{
  Component, root_dir, cur_dir, parent_dir, normal, components, same_component, same_components,
  normalize_path,
}

abbrev pub FilePath : Type 0
FilePath = List Component

abbrev name_of : Component → String
name_of root_dir = ""
name_of cur_dir = "."
name_of parent_dir = ".."
name_of (normal n) = n

-- `Path::to_string_lossy`, of a path written without needless separators.
unfoldable pub render : FilePath → String
render [] = ""
render (c ∷ []) = elim c [ root_dir ↦ "/" | cur_dir ↦ "." | parent_dir ↦ ".." | normal n ↦ n ]
render (c ∷ d ∷ cs) = name_of c <> ("/" <> render (d ∷ cs))

-- `Path::strip_prefix`
unfoldable pub strip_prefix : FilePath → FilePath → Option FilePath
strip_prefix p [] = some p
strip_prefix [] (d ∷ ds) = none
strip_prefix (c ∷ cs) (d ∷ ds) = if same_component c d then strip_prefix cs ds else none

abbrev is_some : Option FilePath → Bool
is_some none = false
is_some (some p) = true

-- `Path::starts_with`
abbrev pub is_under : FilePath → FilePath → Bool
is_under p dir = is_some (strip_prefix p dir)

abbrev pub is_absolute : FilePath → Bool
is_absolute (root_dir ∷ cs) = true
is_absolute _ = false

-- `Path::join`
unfoldable pub join : FilePath → FilePath → FilePath
join dir p = if is_absolute p then p else dir ++ p

-- `Path::parent` of a path that ends in a name.
unfoldable pub parent : FilePath → FilePath
parent [] = []
parent (c ∷ []) = []
parent (c ∷ d ∷ cs) = c ∷ parent (d ∷ cs)

-- `Path::file_name`, or a default.
unfoldable pub file_name_or : String → FilePath → FilePath
file_name_or default [] = normal default ∷ []
file_name_or default (normal n ∷ []) = normal n ∷ []
file_name_or default (c ∷ []) = normal default ∷ []
file_name_or default (c ∷ d ∷ cs) = file_name_or default (d ∷ cs)

-- `Path::canonicalize`
unfoldable pub canonicalize : Files → FilePath → Option FilePath
canonicalize files p = elim (files.canonicalize (render p)) [
  | none ↦ none
  | some q ↦ some (components q)
]

abbrev both_under : Option FilePath → Option FilePath → Bool
both_under (some p) (some dir) = is_under p dir
both_under _ _ = false

unfoldable pub is_inside : Files → FilePath → FilePath → Bool
is_inside files p dir = is_under p dir || both_under (canonicalize files p) (canonicalize files dir)

-- Where the copies go: below the output directory, or in the directory for temporary files.
unfoldable pub mirror_base_of : FilePath → FilePath → String → UnitKey → Option FilePath → FilePath
mirror_base_of current_dir temp_dir pid unit_id none =
    temp_dir ++ (normal ("cargo_instrument_" <> (Unit.dir_name unit_id <> ("_" <> pid))) ∷ [])
mirror_base_of current_dir temp_dir pid unit_id (some out) =
    join current_dir out ++ (normal "instrumented_sources" ∷ normal (Unit.dir_name unit_id) ∷ [])

unfoldable pub is_in_tree_of : Files → FilePath → FilePath → Bool
is_in_tree_of files current_dir resolved =
    is_under resolved current_dir
    || ((not (is_absolute resolved) && not (is_under resolved (parent_dir ∷ [])))
        || both_under (canonicalize files resolved) (canonicalize files current_dir))

abbrev canonical_rel : FilePath → FilePath → Option FilePath → Option FilePath → FilePath
canonical_rel moved unknown (some p) (some dir) = elim (strip_prefix p dir) [
  | some rel ↦ rel
  | none ↦ moved
]
canonical_rel moved unknown _ _ = unknown

-- The root source, relative to `dir`; `unknown` is where a path has no canonical form.
unfoldable pub relative_to : Files → FilePath → FilePath → FilePath → FilePath → FilePath
relative_to files resolved dir moved unknown = elim (strip_prefix resolved dir) [
  | some rel ↦ rel
  | none ↦ canonical_rel moved unknown (canonicalize files resolved) (canonicalize files dir)
]

unfoldable pub rel_source_of : Files → Bool → FilePath → FilePath → FilePath → FilePath
rel_source_of files is_in_tree current_dir source resolved =
    let main_rs = file_name_or "main.rs" source in
    let lib_rs = file_name_or "lib.rs" source in
    if is_in_tree
    then relative_to files resolved current_dir main_rs
        (if is_absolute source then main_rs else source)
    else relative_to files resolved (parent resolved) lib_rs lib_rs

abbrev same_canonical : Bool → Option FilePath → Option FilePath → Bool
same_canonical otherwise (some a) (some b) = same_components a b
same_canonical otherwise _ _ = otherwise

-- `paths_are_identical`
unfoldable pub are_identical : Files → FilePath → FilePath → Bool
are_identical files p q =
    if same_components p q
    then true
    else same_canonical (same_components (normalize_path p) (normalize_path q))
        (canonicalize files p) (canonicalize files q)

pub data MirrorError : Type 0 where
  escapes_crate_root : MirrorError
  not_written : MirrorError
  escaped_mirror_base : MirrorError
  root_not_found : MirrorError

pub record MirroredCrateInfo : Type 0 where
  pub new_root : FilePath
  pub mirror_base : FilePath
  pub base_rel_dir : FilePath
  pub is_in_tree : Bool
  pub source_was_relative : Bool
  pub crate_name : String
  pub extra_filename : Option String

-- What is around the mirroring: the canonical path of a file that the report names, the copying of the
-- tree below the first path into the second, and the files that exist after it.
pub record Surroundings : Type 0 where
  pub files : Files
  pub canonical_of : Bytes → FilePath
  pub write_tree : FilePath → FilePath → Bool
  pub exists : FilePath → Bool
  pub temp_dir : FilePath
  pub pid : String

abbrev pub sources_of : (Bytes → FilePath) → DiscoveryReport → List FilePath
sources_of canonical_of report =
    map (λ c. canonical_of c.source_file) report.candidates
    ++ map (λ s. canonical_of s.source_file) report.spawn_sites

unfoldable pub mirror_and_transform :
    Surroundings
    → (current_dir source : FilePath) → (crate_name : String) → UnitKey
    → (extra_filename : Option String) → (out_dir : Option FilePath) → DiscoveryReport
    → Result MirroredCrateInfo MirrorError
mirror_and_transform w current_dir source crate_name unit_id extra_filename out_dir report =
    let mirror_base = mirror_base_of current_dir w.temp_dir w.pid unit_id out_dir in
    let resolved = join current_dir source in
    let is_in_tree = is_in_tree_of w.files current_dir resolved in
    let base_rel_dir = if is_in_tree then current_dir else parent resolved in
    let new_root =
      join mirror_base (rel_source_of w.files is_in_tree current_dir source resolved) in
    if not (every (λ p. is_inside w.files p base_rel_dir) (sources_of w.canonical_of report))
    then err escapes_crate_root
    else if not (w.write_tree base_rel_dir mirror_base)
    then err not_written
    else if not (is_under new_root mirror_base) || are_identical w.files new_root resolved
    then err escaped_mirror_base
    else if not (w.exists new_root)
    then err root_not_found
    else ok (record {
      new_root = new_root;
      mirror_base = mirror_base;
      base_rel_dir = base_rel_dir;
      is_in_tree = is_in_tree;
      source_was_relative = not (is_absolute source);
      crate_name = crate_name;
      extra_filename = extra_filename;
    })

-- ===== src/Session/Messages.antt =====
-- cargo-instrument/src/session.rs: what `add_r4_artifacts_from_cargo_json` and
-- `add_tokio_artifacts_from_cargo_json` read from the messages of Cargo. A message is what `as_str`,
-- `as_bool` and `as_array` give of its fields, and a line that is no JSON is `none`.
use Prim.Native.Nat.{Ordering}
use rust_compile_time_instru.Prelude.{
  String, Bool, false, not, ◌&&◌, Option, none, some, List, [], ◌∷◌, ◌++◌, str_eq, if◌then◌else◌,
  Result, ok, err,
}
use rust_compile_time_instru.Bytes.{codes, compare_bytes}
use rust_compile_time_instru.Text.{behind}
use rust_compile_time_instru.Sets.{contains}
use rust_compile_time_instru.Discovery.{before_last_dot, file_name}
use rust_compile_time_instru.Session.{lookup}
use rust_compile_time_instru.Session.Rustc.{R4Profile}

pub record Message : Type 0 where
  pub reason : Option String
  pub package_id : Option String
  pub fresh : Option Bool
  pub target_name : Option String
  pub filenames : Option (List (Option String))
  pub features : Option (List (Option String))
  pub opt_level : Option String
  pub debug_assertions : Option Bool
  pub overflow_checks : Option Bool
  pub test : Option Bool

-- The lines of the output that are not empty.
abbrev pub Lines : Type 0
Lines = List (Option Message)

-- The fields that `R4NativeOtelArtifact` and `TokioArtifact` share.
pub record Artifact : Type 0 where
  pub package_id : String
  pub package_version : String
  pub resolved_features : List String
  pub target : Option String
  pub profile : R4Profile
  pub rlib_path : String

pub data CaptureError : Type 0 where
  malformed_message : CaptureError
  rlib_count : (package_id : String) → CaptureError
  no_version : (package_id : String) → CaptureError
  artifact_missing : (rlib_path : String) → CaptureError
  ambiguous_artifacts : (package_id : String) → CaptureError

abbrev pub texts : List (Option String) → List String
texts [] = []
texts (none ∷ more) = texts more
texts (some t ∷ more) = t ∷ texts more

abbrev or_nothing : Option (List (Option String)) → List (Option String)
or_nothing none = []
or_nothing (some xs) = xs

abbrev or_text : Option String → String
or_text none = ""
or_text (some t) = t

abbrev pub or_false : Option Bool → Bool
or_false none = false
or_false (some b) = b

-- `path.extension() == Some(extension)`
unfoldable pub has_extension : String → String → Bool
has_extension extension path = elim (before_last_dot (file_name path)) [
  | none ↦ false
  | some stem ↦ not (str_eq stem "") && str_eq (behind b'.' (file_name path)) extension
]

unfoldable pub with_extension : String → List String → List String
with_extension extension [] = []
with_extension extension (p ∷ paths) =
    let rest = with_extension extension paths in
    if has_extension extension p then p ∷ rest else rest

-- A text put into a list that is sorted and has each text once.
unfoldable pub insert_sorted : String → List String → List String
insert_sorted a [] = a ∷ []
insert_sorted a (b ∷ set) =
    let rest = insert_sorted a set in
    elim (compare_bytes (codes a) (codes b)) [
      | Ordering.lt ↦ a ∷ b ∷ set
      | Ordering.eq ↦ b ∷ set
      | Ordering.gt ↦ b ∷ rest
    ]

-- `sort` and then `dedup`.
unfoldable pub sorted_set : List String → List String
sorted_set [] = []
sorted_set (a ∷ set) = insert_sorted a (sorted_set set)

abbrev pub is_artifact : Option String → Bool
is_artifact none = false
is_artifact (some r) = str_eq r "compiler-artifact"

unfoldable pub profile_of : Message → R4Profile
profile_of m = record {
  opt_level = or_text m.opt_level;
  debug_assertions = or_false m.debug_assertions;
  overflow_checks = or_false m.overflow_checks;
  test = or_false m.test;
}

-- The artifacts found, and the metadata files by the path of the library.
pub record Gathered : Type 0 where
  pub artifacts : List Artifact
  pub metadata_paths : List (String × List String)

abbrev pushed : Gathered → Artifact → List String → Gathered
pushed g a metadata = record {
  artifacts = g.artifacts ++ (a ∷ []);
  metadata_paths = (a.rlib_path, metadata) ∷ g.metadata_paths;
}

-- An artifact of a wanted package whose message lists these libraries.
unfoldable pub gather_artifact :
    List (String × String)
    → Option String
    → Message
    → String
    → List String
    → Gathered
    → Result Gathered CaptureError
gather_artifact versions target m id (rlib ∷ []) g = elim m.features [
  | none ↦ ok g
  | some features ↦ elim (lookup versions id) [
    | none ↦ err (no_version id)
    | some version ↦ ok (
        pushed g
          (record {
            package_id = id;
            package_version = version;
            resolved_features = sorted_set (texts features);
            target = target;
            profile = profile_of m;
            rlib_path = rlib;
          })
          (with_extension "rmeta" (texts (or_nothing m.filenames))))
  ]
]
gather_artifact versions target m id _ g = err (rlib_count id)

unfoldable pub gather_message :
    List (String × String)
    → List String
    → Option String
    → Message
    → Gathered
    → Result Gathered CaptureError
gather_message versions wanted target m g =
    if not (is_artifact m.reason) then ok g else elim m.package_id [
      | none ↦ ok g
      | some id ↦
          if contains wanted id
          then gather_artifact versions target m id
              (with_extension "rlib" (texts (or_nothing m.filenames))) g
          else ok g
    ]

-- The loop over the lines: what has been gathered when it stops, and the error it stops with.
unfoldable pub gather :
    List (String × String)
    → List String
    → Option String
    → Lines
    → Gathered
    → Gathered × Option CaptureError
gather versions wanted target [] g = (g, none)
gather versions wanted target (none ∷ lines) g = (g, some malformed_message)
gather versions wanted target (some m ∷ lines) g =
    elim (gather_message versions wanted target m g) [
      | err e ↦ (g, some e)
      | ok h ↦ gather versions wanted target lines h
    ]

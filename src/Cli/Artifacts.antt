-- ===== src/Cli/Artifacts.antt =====
-- cargo-instrument/src/main.rs: what the messages of the pre-pass say of packages: which it has compiled,
-- and which of the fresh ones are not known to be instrumented. Times are in nanoseconds.
use rust_compile_time_instru.Prelude.{
  ℕ, ◌+◌, String, ◌<>◌, Bool, true, false, not, ◌&&◌, Option, none, some, List, [], ◌∷◌, leb,
  str_eq, if◌then◌else◌, every, Result, ok, err,
}
use rust_compile_time_instru.Text.{normalize, starts_with}
use rust_compile_time_instru.Sets.{contains, insert}
use rust_compile_time_instru.Discovery.{file_name, file_stem, is_relative}
use rust_compile_time_instru.Session.Messages.{Message, Lines, texts, or_false, is_artifact}
use rust_compile_time_instru.Cli.{artifact_stamp_name}

pub data JsonError : Type 0 where
  malformed_line : JsonError
  no_package_id : JsonError

unfoldable pub freshly_compiled_from : List String → Lines → Result (List String) JsonError
freshly_compiled_from ids [] = ok ids
freshly_compiled_from ids (none ∷ lines) = err malformed_line
freshly_compiled_from ids (some m ∷ lines) =
    if is_artifact m.reason && not (or_false m.fresh)
    then elim m.package_id [
      | none ↦ err no_package_id
      | some id ↦ freshly_compiled_from (insert ids id) lines
    ]
    else freshly_compiled_from ids lines

unfoldable pub freshly_compiled_package_ids : Lines → Result (List String) JsonError
freshly_compiled_package_ids lines = freshly_compiled_from [] lines

-- What is before the last slash, if there is one.
unfoldable pub before_last_slash : String → Option String
before_last_slash String.[] = none
before_last_slash (String.◌∷◌ c s) = elim (before_last_slash s) [
  | some dir ↦ some (String.◌∷◌ c dir)
  | none ↦ if starts_with (String.◌∷◌ c s) "/" then some "" else none
]

-- The stamp of an artifact stands in the directory `deps`.
abbrev stamp_file : String → String → String
stamp_file dir stamp =
    if str_eq (file_name dir) "deps" then (dir <> "/") <> stamp else (dir <> "/deps/") <> stamp

-- The modification time of a file, if it can be read.
abbrev pub Times : Type 0
Times = String → Option ℕ

abbrev seen : Option ℕ → Option String → Option String → Option (ℕ × String)
seen (some t) (some dir) (some stamp) = some (t, stamp_file dir stamp)
seen _ _ _ = none

-- The time of an artifact and the place of its stamp.
unfoldable pub artifact_seen : Times → String → String → String → Option (ℕ × String)
artifact_seen modified invocation_dir target file =
    let path = if is_relative file then (invocation_dir <> "/") <> file else file in
    seen (modified path) (before_last_slash path) (artifact_stamp_name target (file_stem path))

abbrev collected : Option (ℕ × String) → List (ℕ × String) → List (ℕ × String)
collected none more = more
collected (some s) more = s ∷ more

unfoldable pub artifacts_seen : Times → String → String → List String → List (ℕ × String)
artifacts_seen modified invocation_dir target [] = []
artifacts_seen modified invocation_dir target (file ∷ files) =
    collected (artifact_seen modified invocation_dir target file)
      (artifacts_seen modified invocation_dir target files)

abbrev pub second : ℕ
second = 1000000000

abbrev pub covers : List (ℕ × String) → Option ℕ → Bool
covers artifacts none = false
covers artifacts (some stamp) = every (λ a. leb (a.0) (stamp + second)) artifacts

abbrev is_nothing : List (ℕ × String) → Bool
is_nothing [] = true
is_nothing (a ∷ artifacts) = false

-- Every stamp exists, and is at most a second older than any artifact.
unfoldable pub is_valid_instrumented : Times → List (ℕ × String) → Bool
is_valid_instrumented modified artifacts =
    not (is_nothing artifacts) && every (λ a. covers artifacts (modified (a.1))) artifacts

abbrev valid_files : Times → String → Option String → Option (List String) → Bool
valid_files modified invocation_dir (some name) (some files) =
    is_valid_instrumented modified (artifacts_seen modified invocation_dir (normalize name) files)
valid_files modified invocation_dir _ _ = false

abbrev texts_of : Option (List (Option String)) → Option (List String)
texts_of none = none
texts_of (some names) = some (texts names)

-- A fresh artifact that has what shows that it is instrumented.
unfoldable pub is_certified : Times → String → Message → Bool
is_certified modified invocation_dir m =
    valid_files modified invocation_dir m.target_name (texts_of m.filenames)

abbrev uncertified : Bool → String → List String → List String
uncertified certified id ids = if certified then ids else insert ids id

-- A line that is no JSON is passed over here.
unfoldable pub uninstrumented_fresh_package_ids : Times → String → List String → Lines → List String
uninstrumented_fresh_package_ids modified invocation_dir instrumented [] = []
uninstrumented_fresh_package_ids modified invocation_dir instrumented (none ∷ lines) =
    uninstrumented_fresh_package_ids modified invocation_dir instrumented lines
uninstrumented_fresh_package_ids modified invocation_dir instrumented (some m ∷ lines) =
    let rest = uninstrumented_fresh_package_ids modified invocation_dir instrumented lines in
    if not (is_artifact m.reason) then rest else elim m.package_id [
      | none ↦ rest
      | some id ↦
          if contains instrumented id && or_false m.fresh
          then uncertified (is_certified modified invocation_dir m) id rest
          else rest
    ]

-- The message is in the output.
pub data IsLine (m : Message) : Lines → Type 0 where
  here : (lines : Lines) → IsLine m (some m ∷ lines)
  there : (l : Option Message) (lines : Lines) → IsLine m lines → IsLine m (l ∷ lines)

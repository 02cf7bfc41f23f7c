-- ===== src/Unit.antt =====
-- cargo-instrument/src/unit.rs: the identity of a compilation unit and of its artifacts.
pub mod Names
use rust_compile_time_instru.Prelude.{
  String, Option, none, some, ◌||◌, str_eq, if◌then◌else◌, ◌<>◌, not,
}
use rust_compile_time_instru.Text.{normalize, strip_prefix, all_words}

pub record UnitKey : Type 0 where
  pub crate_name : String
  pub metadata_hash : Option String

unfoldable pub new : String → Option String → UnitKey
new crate_name metadata_hash = record { crate_name = crate_name; metadata_hash = metadata_hash }

unfoldable pub from_crate_name : String → UnitKey
from_crate_name crate_name = record { crate_name = crate_name; metadata_hash = none }

unfoldable pub dir_name : UnitKey → String
dir_name u = elim u.metadata_hash [ some hash ↦ u.crate_name <> "-" <> hash | none ↦ u.crate_name ]

abbrev stamp_head : String
stamp_head = ".cargo-instrument-transformed-"

abbrev stamp_tail : String
stamp_tail = ".stamp"

unfoldable pub instrumentation_stamp_name : String → String → Option String
instrumentation_stamp_name crate_name extra_filename =
    if str_eq extra_filename ""
    then some (stamp_head <> normalize crate_name <> stamp_tail)
    else elim (strip_prefix extra_filename "-") [
      | none ↦ none
      | some artifact_hash ↦
          if str_eq artifact_hash "" || not (all_words artifact_hash)
          then none
          else some (stamp_head <> normalize crate_name <> "-" <> artifact_hash <> stamp_tail)
    ]

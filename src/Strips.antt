-- ===== src/Strips.antt =====
-- What it is to take a flag out of a list of arguments, in both its forms. The commands that hand their
-- arguments on are described by it: `without_message_format` of cargo-instrument/src/main.rs, and
-- `normalize_lint_controls` of tools/cargo-instrument-rust-driver/src/main.rs.
use rust_compile_time_instru.Prelude.{String, List, [], ◌∷◌}

-- `IsFlag` says which arguments are the flag, whose value is the next argument, and `IsJoined` which
-- arguments are the flag joined with its value. All else stays, in order.
pub data Strips (IsFlag IsJoined : String → Type 0) : List String → List String → Type 0 where
  done : Strips IsFlag IsJoined [] []
  kept :
      (a : String) (args rest : List String)
      → (IsFlag a → ⊥)
      → (IsJoined a → ⊥)
      → Strips IsFlag IsJoined args rest
      → Strips IsFlag IsJoined (a ∷ args) (a ∷ rest)
  with_value :
      (a value : String) (args rest : List String)
      → IsFlag a
      → Strips IsFlag IsJoined args rest
      → Strips IsFlag IsJoined (a ∷ value ∷ args) rest
  without_value : (a : String) → IsFlag a → Strips IsFlag IsJoined (a ∷ []) []
  joined :
      (a : String) (args rest : List String)
      → IsJoined a
      → Strips IsFlag IsJoined args rest
      → Strips IsFlag IsJoined (a ∷ args) rest

-- ===== src/Transform/Apply.antt =====
-- `TransformationPlan::apply` of cargo-instrument/src/transform.rs.
pub mod Woven
use rust_compile_time_instru.Prelude.{
  ℕ, not, ◌||◌, Option, none, some, List, [], ◌∷◌, ◌++◌, length, ltb, if◌then◌else◌, Result, ok,
  err,
}
use rust_compile_time_instru.Bytes.{Bytes, is_char_boundary, slice}
use rust_compile_time_instru.Candidate.{Range}
use rust_compile_time_instru.Transform.{TransformError, ByteEdit, TransformationPlan}

abbrev edit_range : ByteEdit → Range
edit_range e = record { start = e.start; stop = e.stop }

-- What the loop body refuses of an edit.
edit_error : Bytes → ByteEdit → Option TransformError
edit_error source e =
    if ltb (length source) e.start || (ltb (length source) e.stop || ltb e.stop e.start)
    then some (TransformError.out_of_bounds (edit_range e) (length source))
    else if not (is_char_boundary source e.start)
    then some (TransformError.invalid_utf8_boundary e.start (edit_range e))
    else if not (is_char_boundary source e.stop)
    then some (TransformError.invalid_utf8_boundary e.stop (edit_range e))
    else none

-- The loop from `last_offset` on; the result is what is pushed from here. `none` is a panic.
splice : Bytes → ℕ → List ByteEdit → Option (Result Bytes TransformError)
splice source last_offset [] = elim (slice source last_offset (length source)) [
  | none ↦ none
  | some tail ↦ some (ok tail)
]
splice source last_offset (e ∷ es) =
    let rest = splice source e.stop es in
    elim (edit_error source e) [
      | some error ↦ some (err error)
      | none ↦ elim (slice source last_offset e.start) [
        | none ↦ none
        | some kept ↦ elim rest [
          | none ↦ none
          | some (err error) ↦ some (err error)
          | some (ok text) ↦ some (ok (kept ++ (e.replacement ++ text)))
        ]
      ]
    ]

pub apply : TransformationPlan → Bytes → Option (Result Bytes TransformError)
apply plan source = splice source 0 plan.edits

-- ===== src/Transform/Emit.antt =====
-- The sentinel emitter of cargo-instrument/src/transform.rs, and what the children share: a format
-- string is the list of its pieces. `Native` and `Trampoline` have the other two emitters.
pub mod Native
pub mod Trampoline
pub mod Boxed
pub mod Helpers
pub mod Anchored
use rust_compile_time_instru.Prelude.{String, true, false, List, [], ◌∷◌, ◌++◌}
use rust_compile_time_instru.Bytes.{Bytes, codes}
use rust_compile_time_instru.Candidate.{Candidate}
use rust_compile_time_instru.Transform.{Emitter}

-- A piece of literal text.
abbrev pub lit : String → Bytes
lit = codes

-- `format!` of its pieces.
abbrev pub format : List Bytes → Bytes
format [] = []
format (p ∷ ps) = p ++ format ps

-- The line that every emitter writes first.
abbrev pub anchor_line : Bytes → Bytes → List Bytes → List Bytes
anchor_line nl name more =
    nl ∷ lit "    /* __cargo_instrument_anchor:" ∷ lit " \"" ∷ name ∷ lit "\" " ∷ lit "*/" ∷ more

unfoldable pub sentinel_prefix : Candidate → Bytes → Bytes
sentinel_prefix c nl =
    format
      (anchor_line nl c.function_name (nl ∷ lit "    let _cargo_instrument_sentinel = ();" ∷ []))

abbrev pub sentinel_emitter : Emitter
sentinel_emitter = record {
  emit_body_prefix = sentinel_prefix;
  emit_body_suffix = λ c nl. [];
  handles_async = true;
  handles_tokio_spawn = false;
}

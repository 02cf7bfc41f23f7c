-- ===== src/Examples/Text.antt =====
-- Names of units and artifacts, and a source file that is woven.
use rust_compile_time_instru.Prelude.{
  ◌<◌, String, ◌<>◌, ◌≡◌, refl, ◌≢◌, inl, false, none, some, [], ◌∷◌, ◌++◌, arith, ok,
}
use rust_compile_time_instru.Text.{normalize, dash_to_underscore, Lacks, strip_prefix, all_words}
use rust_compile_time_instru.Bytes.{Bytes, codes}
use rust_compile_time_instru.Unit.{UnitKey, instrumentation_stamp_name}
use rust_compile_time_instru.Unit.Names.{dir_name-injective, stamp_unit_specific}
use rust_compile_time_instru.Candidate.{Candidate, free}
use rust_compile_time_instru.Transform.{TransformationPlan}
use rust_compile_time_instru.Transform.Build.{accept, judge, build_with_emitter_and_spawns, lf}
use rust_compile_time_instru.Transform.Build.Total.{IsCutInside}
use rust_compile_time_instru.Transform.Pipeline.{transform_with_spawns, transform_inserts}
use rust_compile_time_instru.Transform.Apply.Woven.{Woven}
use rust_compile_time_instru.Transform.Emit.{sentinel_emitter}
use rust_compile_time_instru.Transform.Emit.Boxed.{BoxedEmitter, native, dispatch}
use rust_compile_time_instru.Transform.Emit.Anchored.{never_instrumented_again}
use rust_compile_time_instru.Cli.Stamps.{Finds, stamp_of_artifact}

abbrev serde : UnitKey
serde = record { crate_name = "serde"; metadata_hash = some "8f3a" }

serde_plain : Lacks b'-' "serde"
serde_plain = (omega arith, (omega arith, (omega arith, (omega arith, (omega arith, tt)))))

dir_name-injective_example : serde ≡ serde
dir_name-injective_example = dir_name-injective serde serde serde_plain serde_plain refl

abbrev extra : String
extra = "-8f3a"

stamped :
    instrumentation_stamp_name "my-app" "-8f3a"
    ≡ some ".cargo-instrument-transformed-my_app-8f3a.stamp"
unfolding instrumentation_stamp_name normalize dash_to_underscore strip_prefix all_words
stamped = refl

stamp_unit_specific_example : (normalize "my-app" ≡ normalize "my-app") × (extra ≡ extra)
stamp_unit_specific_example =
    stamp_unit_specific "my-app" "my-app" extra extra
      ".cargo-instrument-transformed-my_app-8f3a.stamp" stamped stamped

stamp_of_artifact_example :
    Finds "my-app" ((normalize "my-app" <> "-") <> "8f3a") ("-" <> "8f3a")
    × Finds "my-app" (("lib" <> normalize "my-app" <> "-") <> "8f3a") ("-" <> "8f3a")
    × Finds "my-app" (normalize "my-app") ""
    × Finds "my-app" ("lib" <> normalize "my-app") ""
stamp_of_artifact_example = stamp_of_artifact "my-app" "8f3a"

abbrev function : Candidate
function = record {
  function_name = codes "f";
  source_file = codes "lib.rs";
  byte_range = record { start = 0; stop = 12 };
  body_byte_range = record { start = 7; stop = 12 };
  kind = free;
  is_async = false;
  is_generic = false;
  has_enclosing_generics = false;
  returns_result = false;
  returns_mut_reference = false;
  returns_reference_or_lifetime = false;
}

abbrev one_function : Bytes
one_function = codes "fn f() { 1 }"

uncut : ¬ IsCutInside one_function
uncut cut = let long : 4096 < 12 = cut.long in omega arith

transform_inserts_example :
    (plan : TransformationPlan) × (out : Bytes) × (build_with_emitter_and_spawns one_function
        (function ∷ [])
        []
        sentinel_emitter
      ≡ some (ok plan))
    × (transform_with_spawns one_function (function ∷ []) [] sentinel_emitter ≡ some (ok out))
    × Woven 0 one_function plan.edits out
transform_inserts_example = transform_inserts one_function (function ∷ []) [] sentinel_emitter uncut

abbrev otel : BoxedEmitter
otel = native (record { crate_name = codes "shop"; dependency_lifecycle = false })

never_instrumented_again_example :
    judge
      (codes "fn f() "
        ++ b'{'
          ∷ ((dispatch (λ p. none) (λ t. t) otel).emit_body_prefix function lf ++ codes " 1 }"))
      sentinel_emitter
      lf
      none
      function
    ≢ accept []
never_instrumented_again_example =
    never_instrumented_again (λ p. none) (λ t. t) otel function lf (codes "fn f() ") (codes " 1 }")
      sentinel_emitter lf none function [] tt (inl refl) refl

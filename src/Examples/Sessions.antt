-- ===== src/Examples/Sessions.antt =====
-- A crate whose `tokio` is Tokio, built for release.
use rust_compile_time_instru.Prelude.{
  String, ◌≡◌, ◌↔◌, true, false, none, some, List, [], ◌∷◌, str_eq,
}
use rust_compile_time_instru.Session.Plan.{SessionPlan, TokioArtifact, empty_plan}
use rust_compile_time_instru.Session.{Files, unit_has_real_tokio_binding, validate_tokio_binding}
use rust_compile_time_instru.Session.Tokio.{tokio_answers_agree}

abbrev tokio : TokioArtifact
tokio = record {
  package_id = "tokio 1";
  package_version = "1";
  resolved_features = "rt" ∷ [];
  target = none;
  rlib_path = "/t/tokio.rlib";
  profile = record {
    opt_level = "3";
    debug_assertions = false;
    overflow_checks = false;
    test = false;
  };
}

abbrev session : SessionPlan
session = record empty_plan {
  package_manifest_dirs = ("shop 1", "/w/shop") ∷ [];
  tokio_artifacts = tokio ∷ [];
  package_names_by_id = ("tokio 1", "tokio") ∷ [];
  package_dependencies =
      ("shop 1", record { binding_name = "tokio"; package_id = "tokio 1"; kinds = none ∷ [] } ∷ [])
      ∷ [];
}

abbrev disk : Files
disk = record { canonicalize = λ p. some p; is_file = λ p. str_eq p "/t/tokio.rlib" }

abbrev release_args : List String
release_args = "-C" ∷ "opt-level=3" ∷ "--extern" ∷ "tokio=/t/tokio.rlib" ∷ []

tokio_answers_agree_example :
    (validate_tokio_binding disk session "/w/shop/src/lib.rs" release_args ≡ none)
    ↔ (unit_has_real_tokio_binding disk session "/w/shop/src/lib.rs" release_args ≡ true)
tokio_answers_agree_example = tokio_answers_agree disk session "/w/shop/src/lib.rs" release_args

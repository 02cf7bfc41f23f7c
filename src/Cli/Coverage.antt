-- ===== src/Cli/Coverage.antt =====
-- Every package that is to be instrumented is seen to be, or is built again.
use rust_compile_time_instru.Prelude.{String, ◌≡◌, ◌⊎◌, true, some, List, any}
use rust_compile_time_instru.Sets.{contains}
use rust_compile_time_instru.Session.Plan.{SessionPlan}
use rust_compile_time_instru.Session.Messages.{Message, is_artifact}
use rust_compile_time_instru.Cli.Freshness.{desired_instrumented_package_ids}
use rust_compile_time_instru.Cli.Artifacts.{is_certified, IsLine}
use rust_compile_time_instru.Cli.Acquire.{Prepass, capture, Acquired, Site}

module _ (w : Site) (pre : Prepass) where
  -- The package is among those that were invalidated.
  abbrev pub IsInvalidated : String → Acquired → Type 0
  IsInvalidated id a = any (λ ids. contains ids id) a.invalidated ≡ true

  -- The packages to instrument, by the plan with what the pre-pass has shown.
  abbrev pub desired_of : SessionPlan → List String
  desired_of plan =
      desired_instrumented_package_ids w.registry_enabled ((capture w.files w.packages pre plan).0)
        w.packages

  -- Every artifact that is reported for a package to instrument is instrumented or invalidated.
  abbrev pub Covers : SessionPlan → Acquired → Type 0
  Covers plan a =
      (m : Message) (id : String)
      → IsLine m pre.stdout
      → is_artifact m.reason ≡ true
      → m.package_id ≡ some id
      → contains (desired_of plan) id ≡ true
      → (is_certified w.modified w.invocation_dir m ≡ true) ⊎ IsInvalidated id a

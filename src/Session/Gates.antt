-- ===== src/Session/Gates.antt =====
-- cargo-instrument/src/session.rs: the questions that the wrapper asks of the plan before it looks
-- at a crate, and the host-only set.
use rust_compile_time_instru.Prelude.{
  String, Bool, false, ◌||◌, Option, none, some, List, [], ◌∷◌, if◌then◌else◌, any,
}
use rust_compile_time_instru.Text.{normalize}
use rust_compile_time_instru.Sets.{contains}
use rust_compile_time_instru.Session.Plan.{SessionPlan}
use rust_compile_time_instru.Session.{Files, in_directory, package_id_for_source}

abbrev contains_id : List String → Option String → Bool
contains_id ids none = false
contains_id ids (some id) = contains ids id

unfoldable pub excludes_wrapper_source : Files → SessionPlan → String → Bool
excludes_wrapper_source files plan source =
    contains_id plan.wrapper_excluded_package_ids (package_id_for_source files plan source)

unfoldable pub is_host_only : SessionPlan → String → Bool
is_host_only plan name = contains plan.host_only_packages (normalize name)

abbrev in_any : List String → Option String → Bool
in_any dirs none = false
in_any dirs (some source) = any (in_directory source) dirs

unfoldable pub is_host_only_unit : SessionPlan → String → Option String → Bool
is_host_only_unit plan name source =
    contains plan.host_only_packages (normalize name) || in_any plan.host_only_manifest_dirs source

unfoldable pub is_shim_unsafe : SessionPlan → String → Bool
is_shim_unsafe plan name = contains plan.shim_unsafe_packages (normalize name)

-- The names come in any spelling; the set that is left has only normalised names.
unfoldable pub compute_host_only : List String → List String → List String
compute_host_only [] target_reachable_names = []
compute_host_only (n ∷ names) target_reachable_names =
    let rest = compute_host_only names target_reachable_names in
    if contains target_reachable_names (normalize n) then rest else normalize n ∷ rest

-- ===== src/Cli/Invalidate/Batches.antt =====
-- What the runs of `cargo clean` are given, taken together.
use rust_compile_time_instru.Prelude.{String, ◌≡◌, List, [], ◌∷◌, ◌++◌, map}
use rust_compile_time_instru.Session.Register.{Package}
use rust_compile_time_instru.Cli.Invalidate.{clean_args}
use rust_compile_time_instru.Cli.Invalidate.Safe.{Cleans}

-- The names of all batches.
abbrev pub joined : List (List String) → List String
joined [] = []
joined (batch ∷ batches) = batch ++ joined batches

-- The batches that `cargo clean` is run with, one run for each, have these names.
abbrev pub CleansInBatches :
    List String → List String → List Package → List String → String → List (List String) → Type 0
CleansInBatches package_ids retained_ids packages cargo_args target_dir runs =
    (keys : List String) × Cleans package_ids retained_ids packages keys
    × ((batches : List (List String)) × (joined batches ≡ keys)
        × (map (clean_args target_dir cargo_args) batches ≡ runs))

-- ===== src/InstrumentRust/Selection.antt =====
-- Which packages `cargo instrument-rust` edits.
use rust_compile_time_instru.Prelude.{String, ◌≡◌, ◌⊎◌, true, List, [], ◌∷◌}
use rust_compile_time_instru.InstrumentRust.{Package, SelectedPackage, is_selected}

-- The selected package comes from a package of the metadata that is a workspace member and requested.
abbrev pub ComesFrom : List String → List String → List Package → SelectedPackage → Type 0
ComesFrom members requested [] s = ⊥
ComesFrom members requested (p ∷ packages) s =
    ((p.name ≡ s.name) × (is_selected members requested p ≡ true))
    ⊎ ComesFrom members requested packages s

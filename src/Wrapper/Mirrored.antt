-- ===== src/Wrapper/Mirrored.antt =====
-- Where the copy of a crate stands that has been mirrored.
use rust_compile_time_instru.Prelude.{String, ◌≡◌, ◌≢◌, ◌⊎◌, true, some, ◌++◌, All}
use rust_compile_time_instru.Candidate.{DiscoveryReport}
use rust_compile_time_instru.Paths.{Component, normal}
use rust_compile_time_instru.Session.{Files}
use rust_compile_time_instru.Wrapper.Mirror.{
  FilePath, canonicalize, sources_of, join, MirroredCrateInfo, Surroundings,
}

-- The path begins with the directory.
abbrev pub IsBelow : FilePath → FilePath → Type 0
IsBelow p dir = (rest : FilePath) × (p ≡ dir ++ rest)

-- The path begins with the directory, or does in canonical form.
abbrev pub IsInside : Files → FilePath → FilePath → Type 0
IsInside files p dir =
    IsBelow p dir
    ⊎ ((q : FilePath) × (d : FilePath) × (canonicalize files p ≡ some q)
        × (canonicalize files dir ≡ some d)
        × IsBelow q d)

-- The two paths are written differently, and lead to different files as far as the file system knows.
abbrev pub Differs : Files → FilePath → FilePath → Type 0
Differs files p q =
    (p ≢ q)
    × ((a b : FilePath) → canonicalize files p ≡ some a → canonicalize files q ≡ some b → a ≢ b)

abbrev pub IsName : Component → Type 0
IsName c = (n : String) × (c ≡ normal n)

-- A crate that was mirrored.
pub record IsMirrored (w : Surroundings) (current_dir source : FilePath) (report : DiscoveryReport)
    (info : MirroredCrateInfo) : Type 0 where
  pub contained : All (λ p. IsInside w.files p info.base_rel_dir) (sources_of w.canonical_of report)
  pub written : w.write_tree info.base_rel_dir info.mirror_base ≡ true
  pub below_base : IsBelow info.new_root info.mirror_base
  pub not_original : Differs w.files info.new_root (join current_dir source)
  pub found : w.exists info.new_root ≡ true
  pub same_path :
      All IsName source
      → (info.base_rel_dir ≡ current_dir) × (info.new_root ≡ info.mirror_base ++ source)

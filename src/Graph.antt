-- ===== src/Graph.antt =====
-- The dependency graph of a build, as the code keeps it: a map from a package to the packages that
-- it depends on. `Exclude` has the search of cargo-instrument/src/session.rs with a stack, `Retain`
-- that of cargo-instrument/src/main.rs with a queue.
pub mod Exclude
pub mod Retain
use rust_compile_time_instru.Prelude.{
  ℕ, ◌+◌, ◌≤◌, String, ◌≡◌, sym, subst, inl, inr, true, false, List, [], ◌∷◌, arith, eq_iff, str_eq,
  if◌then◌else◌, Bool-cases, length,
}
use rust_compile_time_instru.Sets.{contains}

abbrev pub Edges : Type 0
Edges = List (String × List String)

-- What the map has for a package, nothing when the key is missing.
unfoldable pub next : Edges → String → List String
next [] id = []
next (e ∷ edges) id = let rest = next edges id in if str_eq (e.0) id then e.1 else rest

-- The packages that are reached from the roots.
pub data Reach (edges : Edges) (roots : List String) : String → Type 0 where
  root : (a : String) → contains roots a ≡ true → Reach edges roots a
  edge :
      (a b : String) → Reach edges roots a → contains (next edges a) b ≡ true → Reach edges roots b

-- The edges that leave a package that is not yet done.
unfoldable pub weight : Edges → List String → ℕ
weight [] done = 0
weight (e ∷ edges) done =
    let rest = weight edges done in if contains done (e.0) then rest else length (e.1) + rest

weight-shrinks :
    (edges : Edges) (done : List String) (id : String)
    → weight edges (id ∷ done) ≤ weight edges done
unfolding weight contains
weight-shrinks [] done id = omega arith
weight-shrinks (e ∷ edges) done id = let i = weight-shrinks edges done id in ground arith

-- The edges of a package are paid for by marking it as done.
pub weight-done :
    (edges : Edges) (done : List String) (id : String)
    → contains done id ≡ false
    → length (next edges id) + weight edges (id ∷ done) ≤ weight edges done
unfolding weight contains next
weight-done [] done id new = omega arith
weight-done (e ∷ edges) done id new =
    let i = weight-done edges done id new in
    let s = weight-shrinks edges done id in
    elim (Bool-cases (str_eq (e.0) id)) [
      | inl h ↦
          let same = (eq_iff (e.0) id).0 h in
          let there = (eq_iff id (e.0)).1 (sym same) in
          let fresh = subst (λ a. contains done a ≡ false) (sym same) new in ground arith
      | inr h ↦ elim (Bool-cases (str_eq id (e.0))) [
        | inl k ↦
            let there = (eq_iff (e.0) id).1 (sym ((eq_iff id (e.0)).0 k)) in absurd (cc (h, there))
        | inr k ↦ ground arith
      ]
    ]

-- ===== src/Graph/Retain.antt =====
-- cargo-instrument/src/main.rs: the loop of `retained_artifact_closure`. The queue and the set are lists;
-- `none` is a run that is out of fuel.
pub mod Closure
use rust_compile_time_instru.Prelude.{
  ℕ, zero, suc, ◌+◌, ◌≤◌, String, ◌≡◌, sym, subst, ◌⊎◌, inl, inr, true, false, Option, none, some,
  List, [], ◌∷◌, ◌++◌, arith, eq_iff, str_eq, if◌then◌else◌, Bool-cases, length,
}
use rust_compile_time_instru.Sets.{
  contains, contains-tail, contains-cons, contains-head, contains-none,
}
use rust_compile_time_instru.Graph.{Edges, next}

-- The set and the queue of the loop.
pub record Retained : Type 0 where
  pub retained : List String
  pub queue : List String

-- The loop over the dependencies of one package.
unfoldable pub retain_all : List String → Retained → Retained
retain_all [] s = s
retain_all (dep ∷ deps) s = retain_all deps (
    if contains s.retained dep
    then s
    else record { retained = dep ∷ s.retained; queue = s.queue ++ (dep ∷ []) })

-- One turn of the loop, unless the queue is empty.
unfoldable pub step : Edges → Retained → Option Retained
step edges s = elim s.queue [
  | [] ↦ none
  | id ∷ rest ↦ some (retain_all (next edges id) (record s { queue = rest }))
]

unfoldable pub closure : ℕ → Edges → Retained → Option (List String)
closure zero edges s = elim (step edges s) [ none ↦ some s.retained | some t ↦ none ]
closure (suc n) edges s = elim (step edges s) [
  | none ↦ some s.retained
  | some t ↦ closure n edges t
]

-- The ends of all edges.
unfoldable pub targets : Edges → List String
targets [] = []
targets (e ∷ edges) = e.1 ++ targets edges

-- The ends of edges that are not in the set yet, each as often as it is an end.
unfoldable pub missing : List String → List String → ℕ
missing [] set = 0
missing (a ∷ more) set = let rest = missing more set in if contains set a then rest else suc rest

-- Turns that are left at most.
abbrev pub fuel_for : Edges → Retained → ℕ
fuel_for edges s = length s.queue + missing (targets edges) s.retained

contains-left :
    (xs ys : List String) (a : String) → contains xs a ≡ true → contains (xs ++ ys) a ≡ true
unfolding contains
contains-left [] ys a h = contains-none a h
contains-left (x ∷ xs) ys a h = let i = contains-left xs ys a in ground arith

contains-right :
    (xs ys : List String) (a : String) → contains ys a ≡ true → contains (xs ++ ys) a ≡ true
unfolding contains
contains-right [] ys a h = h
contains-right (x ∷ xs) ys a h = let i = contains-right xs ys a h in ground arith

contains-append :
    (xs ys : List String) (a : String)
    → contains (xs ++ ys) a ≡ true
    → (contains xs a ≡ true) ⊎ (contains ys a ≡ true)
contains-append [] ys a h = inr h
contains-append (x ∷ xs) ys a h = elim (contains-cons x a (xs ++ ys) h) [
  | inl e ↦ inl (subst (λ y. contains (x ∷ xs) y ≡ true) e (contains-head x xs))
  | inr k ↦ elim (contains-append xs ys a k) [
    | inl l ↦ inl (contains-tail x a xs l)
    | inr l ↦ inr l
  ]
]

next-targets :
    (edges : Edges) (id a : String)
    → contains (next edges id) a ≡ true
    → contains (targets edges) a ≡ true
unfolding next targets
next-targets [] id a h = h
next-targets (e ∷ edges) id a h = elim (Bool-cases (str_eq (e.0) id)) [
  | inl s ↦ contains-left (e.1) (targets edges) a (ground arith)
  | inr s ↦ contains-right (e.1) (targets edges) a (next-targets edges id a (ground arith))
]

missing-shrinks : (xs set : List String) (a : String) → missing xs (a ∷ set) ≤ missing xs set
unfolding missing contains
missing-shrinks [] set a = omega arith
missing-shrinks (x ∷ xs) set a = let i = missing-shrinks xs set a in ground arith

missing-drops :
    (xs set : List String) (a : String)
    → contains xs a ≡ true
    → contains set a ≡ false
    → suc (missing xs (a ∷ set)) ≤ missing xs set
unfolding missing contains
missing-drops [] set a h new = absurd cc
missing-drops (x ∷ xs) set a h new = elim (Bool-cases (str_eq x a)) [
  | inl e ↦
      let same = (eq_iff x a).0 e in
      let there = (eq_iff a x).1 (sym same) in
      let fresh = subst (λ y. contains set y ≡ false) (sym same) new in
      let i = missing-shrinks xs set a in ground arith
  | inr e ↦ let i = missing-drops xs set a in ground arith
]

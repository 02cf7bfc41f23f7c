-- ===== src/Sets.antt =====
-- A `HashSet` of texts is a list, in the order of its iteration.
pub mod Count
use rust_compile_time_instru.Prelude.{
  ◌+◌, String, ◌≡◌, refl, subst, ◌⊎◌, inl, inr, Bool, true, false, ◌||◌, List, [], ◌∷◌, arith,
  eq_iff, str_eq, if◌then◌else◌, Bool-cases, length,
}

unfoldable pub contains : List String → String → Bool
contains [] a = false
contains (b ∷ set) a = let rest = contains set a in str_eq b a || rest

-- `HashSet::insert`, without the answer whether the element is new.
unfoldable pub insert : List String → String → List String
insert set a = if contains set a then set else a ∷ set

-- `extend`, of a stack or of a set: the last of the new elements comes first.
unfoldable pub push_all : List String → List String → List String
push_all [] set = set
push_all (a ∷ more) set = push_all more (a ∷ set)

pub contains-head : (a : String) (set : List String) → contains (a ∷ set) a ≡ true
unfolding contains
contains-head a set = let e = (eq_iff a a).1 refl in ground arith

pub contains-tail :
    (b a : String) (set : List String) → contains set a ≡ true → contains (b ∷ set) a ≡ true
unfolding contains
contains-tail b a set h = ground arith

-- An element is the first one or among the others.
pub contains-cons :
    (b a : String) (set : List String)
    → contains (b ∷ set) a ≡ true
    → (b ≡ a) ⊎ (contains set a ≡ true)
unfolding contains
contains-cons b a set h = elim (Bool-cases (str_eq b a)) [
  | inl e ↦ inl ((eq_iff b a).0 e)
  | inr e ↦ inr (ground arith)
]

pub contains-none {ℓ} : {C : Type ℓ} (a : String) → contains [] a ≡ true → C
unfolding contains
contains-none a h = absurd cc

pub contains-insert :
    (set : List String) (b a : String)
    → contains (insert set b) a ≡ true
    → (b ≡ a) ⊎ (contains set a ≡ true)
unfolding insert
contains-insert set b a h = elim (Bool-cases (contains set b)) [
  | inl e ↦ inr (ground arith)
  | inr e ↦ let k : contains (b ∷ set) a ≡ true = ground arith in contains-cons b a set k
]

pub insert-head : (set : List String) (a : String) → contains (insert set a) a ≡ true
unfolding insert
insert-head set a = let h = contains-head a set in ground arith

pub insert-tail :
    (set : List String) (b a : String) → contains set a ≡ true → contains (insert set b) a ≡ true
unfolding insert
insert-tail set b a h = let k = contains-tail b a set h in ground arith

pub push_all-keeps :
    (more set : List String) (a : String)
    → contains set a ≡ true
    → contains (push_all more set) a ≡ true
unfolding push_all
push_all-keeps [] set a h = h
push_all-keeps (b ∷ more) set a h = push_all-keeps more (b ∷ set) a (contains-tail b a set h)

pub push_all-adds :
    (more set : List String) (a : String)
    → contains more a ≡ true
    → contains (push_all more set) a ≡ true
unfolding push_all
push_all-adds [] set a h = contains-none a h
push_all-adds (b ∷ more) set a h = elim (contains-cons b a more h) [
  | inl e ↦
      push_all-keeps more (b ∷ set) a
        (subst (λ x. contains (b ∷ set) x ≡ true) e (contains-head b set))
  | inr k ↦ push_all-adds more (b ∷ set) a k
]

pub contains-push_all :
    (more set : List String) (a : String)
    → contains (push_all more set) a ≡ true
    → (contains more a ≡ true) ⊎ (contains set a ≡ true)
unfolding push_all
contains-push_all [] set a h = inr h
contains-push_all (b ∷ more) set a h = elim (contains-push_all more (b ∷ set) a h) [
  | inl k ↦ inl (contains-tail b a more k)
  | inr k ↦ elim (contains-cons b a set k) [
    | inl e ↦ inl (subst (λ x. contains (b ∷ more) x ≡ true) e (contains-head b more))
    | inr l ↦ inr l
  ]
]

pub length-push_all :
    (more set : List String) → length (push_all more set) ≡ length more + length set
unfolding push_all
length-push_all [] set = omega arith
length-push_all (b ∷ more) set = omega (arith, length-push_all more (b ∷ set))

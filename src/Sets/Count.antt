-- ===== src/Sets/Count.antt =====
-- Two sets of as many elements, one of them in the other, are the same.
use rust_compile_time_instru.Prelude.{
  suc, ◌≤◌, String, ◌≡◌, sym, ◌∙◌, subst, ◌⊎◌, inl, inr, true, false, List, [], ◌∷◌, arith, eq_iff,
  str_eq, if◌then◌else◌, Bool-cases, length,
}
use rust_compile_time_instru.Sets.{
  contains, contains-head, contains-tail, contains-cons, contains-none,
}

-- No element comes twice.
unfoldable pub IsDistinct : List String → Type 0
IsDistinct [] = Unit
IsDistinct (a ∷ set) = (contains set a ≡ false) × IsDistinct set

-- Without the first of these elements.
unfoldable remove : String → List String → List String
remove a [] = []
remove a (b ∷ set) = let rest = remove a set in if str_eq b a then set else b ∷ rest

length-remove :
    (a : String) (set : List String)
    → contains set a ≡ true
    → suc (length (remove a set)) ≡ length set
unfolding remove contains
length-remove a [] h = contains-none a h
length-remove a (b ∷ set) h = elim (Bool-cases (str_eq b a)) [
  | inl e ↦ ground arith
  | inr e ↦ let i = length-remove a set (ground arith) in ground arith
]

remove-keeps :
    (a c : String) (set : List String)
    → contains set c ≡ true
    → (a ≡ c) ⊎ (contains (remove a set) c ≡ true)
unfolding remove
remove-keeps a c [] h = contains-none c h
remove-keeps a c (b ∷ set) h = elim (Bool-cases (str_eq b a)) [
  | inl e ↦ elim (contains-cons b c set h) [
    | inl f ↦ inl (sym ((eq_iff b a).0 e) ∙ f)
    | inr k ↦ inr (ground arith)
  ]
  | inr e ↦ elim (contains-cons b c set h) [
    | inl f ↦
        let head = contains-head b (remove a set) in
        let there = subst (λ x. contains (b ∷ remove a set) x ≡ true) f head in inr (ground arith)
    | inr k ↦ elim (remove-keeps a c set k) [
      | inl f ↦ inl f
      | inr l ↦ let there = contains-tail b c (remove a set) l in inr (ground arith)
    ]
  ]
]

pub contains-all :
    (xs ys : List String)
    → IsDistinct xs
    → ((a : String) → contains xs a ≡ true → contains ys a ≡ true)
    → length ys ≤ length xs
    → (a : String) → contains ys a ≡ true
    → contains xs a ≡ true
unfolding IsDistinct
contains-all [] [] d within short a h = h
contains-all [] (y ∷ ys) d within short a h = absurd (omega (arith, short))
contains-all (x ∷ xs) ys d within short a h =
    let there = within x (contains-head x xs) in
    let fewer = length-remove x ys there in
    elim (remove-keeps x a ys h) [
      | inl e ↦ subst (λ z. contains (x ∷ xs) z ≡ true) e (contains-head x xs)
      | inr k ↦ contains-tail x a xs (
          contains-all xs (remove x ys) d.1
            (λ c l. elim (remove-keeps x c ys (within c (contains-tail x c xs l))) [
              | inl e ↦ absurd (cc (d.0, l, e))
              | inr m ↦ m
            ])
            (omega (arith, short, fewer)) a k)
    ]

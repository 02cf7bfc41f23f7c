-- ===== src/Cli/Invalidate/Checks.antt =====
-- What the names and the safety checks of `invalidate_packages` say of packages.
use rust_compile_time_instru.Prelude.{
  ◌≤◌, String, ◌≡◌, ap, ◌∙◌, subst, ◌⊎◌, inl, inr, Bool, true, false, Option, none, some, List, [],
  ◌∷◌, arith, eq_iff, str_eq, Bool-cases, Option-cases, length, ok, Result-cases,
}
use rust_compile_time_instru.Sets.{
  contains, insert, contains-head, contains-tail, contains-cons, contains-none, contains-insert,
  insert-head, insert-tail,
}
use rust_compile_time_instru.Sets.Count.{IsDistinct}
use rust_compile_time_instru.Session.{lookup}
use rust_compile_time_instru.Session.Register.{Package}
use rust_compile_time_instru.Cli.Invalidate.{
  names_from, ids_named, name_of, retained_names, names_to_clean, is_name, ids_to_clean,
  shared_name, is_ambiguous, ambiguous_name,
}

-- A name that is looked up is the name of a package of the metadata.
pub lookup-named :
    (found acc : List (String × String)) (id n : String)
    → lookup (names_from acc found) id ≡ some n
    → (contains (ids_named found n) id ≡ true) ⊎ (lookup acc id ≡ some n)
unfolding names_from ids_named lookup
lookup-named [] acc id n h = inr h
lookup-named (p ∷ found) acc id n h = elim (lookup-named found (p ∷ acc) id n h) [
  | inl k ↦ let later = contains-tail (p.0) id (ids_named found n) k in inl (ground arith)
  | inr k ↦ elim (Bool-cases (str_eq (p.0) id)) [
    | inl e ↦
        let same = (eq_iff (p.0) id).0 e in
        let name = (eq_iff (p.1) n).1 (ground arith) in
        let head =
          subst (λ x. contains (p.0 ∷ ids_named found n) x ≡ true) same
            (contains-head (p.0) (ids_named found n)) in
        inl (ground arith)
    | inr e ↦ inr (ground arith)
  ]
]

pub no_lookup : (id n : String) → lookup [] id ≡ some n → ⊥
unfolding lookup
no_lookup id n h = absurd cc

pub is_name-some : (n : String) (o : Option String) → is_name n o ≡ true → o ≡ some n
is_name-some n none h = absurd cc
is_name-some n (some m) h = ap some ((eq_iff m n).0 h)

pub some-is_name : (n : String) (o : Option String) → o ≡ some n → is_name n o ≡ true
some-is_name n none h = absurd cc
some-is_name n (some m) h = (eq_iff m n).1 (cc h)

module _ (names : List (String × String)) where
  -- The packages to clean of a name are those that have it.
  pub cleaned_sound :
      (ids : List String) (n id : String)
      → contains (ids_to_clean names ids n) id ≡ true
      → (contains ids id ≡ true) × (lookup names id ≡ some n)
  unfolding ids_to_clean
  cleaned_sound [] n id h = contains-none id h
  cleaned_sound (i ∷ ids) n id h = elim (Bool-cases (is_name n (lookup names i))) [
    | inl e ↦
        let k : contains (i ∷ ids_to_clean names ids n) id ≡ true = ground arith in
        elim (contains-cons i id (ids_to_clean names ids n) k) [
          | inl f ↦
              subst (λ x. (contains (i ∷ ids) x ≡ true) × (lookup names x ≡ some n)) f
                (contains-head i ids, is_name-some n (lookup names i) e)
          | inr l ↦ let r = cleaned_sound ids n id l in (contains-tail i id ids r.0, r.1)
        ]
    | inr e ↦ let r = cleaned_sound ids n id (ground arith) in (contains-tail i id ids r.0, r.1)
  ]

  pub cleaned-IsDistinct :
      (ids : List String) (n : String) → IsDistinct ids → IsDistinct (ids_to_clean names ids n)
  unfolding ids_to_clean IsDistinct
  cleaned-IsDistinct [] n d = d
  cleaned-IsDistinct (i ∷ ids) n d = elim (Bool-cases (is_name n (lookup names i))) [
    | inl e ↦ rw e (
      elim (Bool-cases (contains (ids_to_clean names ids n) i)) [
        | inl k ↦ absurd (cc (d.0, (cleaned_sound ids n i k).0))
        | inr k ↦ k
      ],
      cleaned-IsDistinct ids n d.1,
    )
    | inr e ↦ rw e (cleaned-IsDistinct ids n d.1)
  ]

  -- What the keys are: the names of the packages to clean, each of which has one.
  abbrev pub Keyed : List String → List String → Type 0
  Keyed ids keys =
      ((id : String)
        → contains ids id ≡ true
        → (n : String) × (lookup names id ≡ some n) × (contains keys n ≡ true))
      × ((n : String)
          → contains keys n ≡ true
          → (id : String) × (contains (ids_to_clean names ids n) id ≡ true))

  pub insert-Keyed :
      (i m : String) (ids rest : List String)
      → lookup names i ≡ some m
      → Keyed ids rest
      → Keyed (i ∷ ids) (insert rest m)
  unfolding ids_to_clean
  insert-Keyed i m ids rest found keyed = (
    λ id h. elim (contains-cons i id ids h) [
      | inl e ↦ (m, subst (λ x. lookup names x ≡ some m) e found, insert-head rest m)
      | inr k ↦ let r = keyed.0 id k in (r.0, r.1, insert-tail rest m (r.0) r.2)
    ],
    λ n h. elim (contains-insert rest m n h) [
      | inl e ↦
          let is = some-is_name n (lookup names i) (found ∙ ap some e) in
          (i, rw is (contains-head i (ids_to_clean names ids n)))
      | inr k ↦
          let r = keyed.1 n k in
          (
            r.0,
            elim (Bool-cases (is_name n (lookup names i))) [
              | inl e ↦ rw e (contains-tail i (r.0) (ids_to_clean names ids n) r.1)
              | inr e ↦ rw e (r.1)
            ],
          )
    ],
  )

  pub keys-Keyed : (ids keys : List String) → names_to_clean names ids ≡ ok keys → Keyed ids keys
  unfolding names_to_clean
  keys-Keyed [] keys h =
      let empty : [] ≡ keys = cc h in
      subst (Keyed []) empty (λ id k. contains-none id k, λ n k. contains-none n k)
  keys-Keyed (i ∷ ids) keys h = elim (Option-cases (lookup names i)) [
    | inl n ↦ absurd (ground arith)
    | inr m ↦ elim (Result-cases (names_to_clean names ids)) [
      | inl e ↦ let f = e.1 in let g = m.1 in absurd (ground arith)
      | inr r ↦
          let f = r.1 in
          let g = m.1 in
          let same : insert (r.0) (m.0) ≡ keys = ground arith in
          subst (Keyed (i ∷ ids)) same
            (insert-Keyed i (m.0) ids (r.0) m.1 (keys-Keyed ids (r.0) r.1))
    ]
  ]

-- The names of the retained packages.
pub retained_names-has :
    (packages : List Package) (ids : List String) (id n : String)
    → contains ids id ≡ true
    → name_of packages id ≡ some n
    → contains (retained_names packages ids) n ≡ true
unfolding retained_names
retained_names-has packages [] id n h e = contains-none id h
retained_names-has packages (i ∷ ids) id n h e = elim (contains-cons i id ids h) [
  | inl f ↦
      let name : name_of packages i ≡ some n = cc (e, f) in
      rw name (insert-head (retained_names packages ids) n)
  | inr k ↦
      let later = retained_names-has packages ids id n k e in
      elim (Option-cases (name_of packages i)) [
        | inl g ↦ rw g later
        | inr g ↦ let q = g.1 in rw q (insert-tail (retained_names packages ids) (g.0) n later)
      ]
]

pub shared_name-none :
    (retained names : List String) (n : String)
    → shared_name retained names ≡ none
    → contains names n ≡ true
    → contains retained n ≡ false
unfolding shared_name
shared_name-none retained [] n h k = contains-none n k
shared_name-none retained (m ∷ names) n h k = elim (contains-cons m n names k) [
  | inl e ↦ subst (λ x. contains retained x ≡ false) e (ground arith)
  | inr l ↦ shared_name-none retained names n (ground arith) l
]

pub ambiguous_name-none :
    (ambiguous : String → Bool) (names : List String) (n : String)
    → ambiguous_name ambiguous names ≡ none
    → contains names n ≡ true
    → ambiguous n ≡ false
unfolding ambiguous_name
ambiguous_name-none ambiguous [] n h k = contains-none n k
ambiguous_name-none ambiguous (m ∷ names) n h k = elim (contains-cons m n names k) [
  | inl e ↦ subst (λ x. ambiguous x ≡ false) e (ground arith)
  | inr l ↦ ambiguous_name-none ambiguous names n (ground arith) l
]

-- A name that is not ambiguous has all its packages cleaned.
pub all_cleaned :
    (all cleaned : List String) (id : String)
    → is_ambiguous all cleaned ≡ false
    → contains cleaned id ≡ true
    → length all ≤ length cleaned
unfolding contains
all_cleaned all [] id h k = absurd cc
all_cleaned all (c ∷ cleaned) id h k = ground arith

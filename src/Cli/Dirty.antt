-- ===== src/Cli/Dirty.antt =====
-- What the messages of the pre-pass and the sets made of them are known to have.
use rust_compile_time_instru.Prelude.{
  String, ◌≡◌, sym, subst, ◌⊎◌, inl, inr, true, false, not, ◌&&◌, none, some, List, [], ◌∷◌, arith,
  Bool-cases, Option-cases, ok,
}
use rust_compile_time_instru.Sets.{
  contains, insert, contains-cons, contains-head, contains-tail, contains-none, insert-head,
  insert-tail,
}
use rust_compile_time_instru.Session.Messages.{Message, Lines, or_false, is_artifact}
use rust_compile_time_instru.Cli.Artifacts.{
  Times, freshly_compiled_from, is_certified, uninstrumented_fresh_package_ids, IsLine, here, there,
}
use rust_compile_time_instru.Cli.Acquire.{intersection, difference, union}

pub compiled-keeps :
    (acc : List String) (lines : Lines) (ids : List String) (id : String)
    → freshly_compiled_from acc lines ≡ ok ids
    → contains acc id ≡ true
    → contains ids id ≡ true
unfolding freshly_compiled_from
compiled-keeps acc [] ids id h k =
    let same : acc ≡ ids = cc h in subst (λ x. contains x id ≡ true) same k
compiled-keeps acc (none ∷ lines) ids id h k = absurd cc
compiled-keeps acc (some m ∷ lines) ids id h k =
    elim (Bool-cases (is_artifact m.reason && not (or_false m.fresh))) [
      | inr n ↦ compiled-keeps acc lines ids id (ground arith) k
      | inl y ↦ elim (Option-cases m.package_id) [
        | inl n ↦ absurd (ground arith)
        | inr p ↦
            let q = p.1 in
            compiled-keeps (insert acc (p.0)) lines ids id (ground arith)
              (insert-tail acc (p.0) id k)
      ]
    ]

pub compiled-has :
    (m : Message) (id : String) (acc : List String) (lines : Lines) (ids : List String)
    → freshly_compiled_from acc lines ≡ ok ids
    → IsLine m lines
    → is_artifact m.reason ≡ true
    → m.package_id ≡ some id
    → or_false m.fresh ≡ false
    → contains ids id ≡ true
unfolding freshly_compiled_from
compiled-has m id acc _ ids h (here lines) a p f =
    compiled-keeps (insert acc id) lines ids id (ground arith) (insert-head acc id)
compiled-has m id acc _ ids h (there none lines i) a p f = absurd cc
compiled-has m id acc _ ids h (there (some l) lines i) a p f =
    elim (Bool-cases (is_artifact l.reason && not (or_false l.fresh))) [
      | inr n ↦ compiled-has m id acc lines ids (ground arith) i a p f
      | inl y ↦ elim (Option-cases l.package_id) [
        | inl n ↦ absurd (ground arith)
        | inr q ↦
            let e = q.1 in compiled-has m id (insert acc (q.0)) lines ids (ground arith) i a p f
      ]
    ]

module _ (modified : Times) (dir : String) (desired : List String) where
  -- A line in front only adds to what is uninstrumented.
  pub line-keeps :
      (l : Message) (lines : Lines) (id : String)
      → contains (uninstrumented_fresh_package_ids modified dir desired lines) id ≡ true
      → contains (uninstrumented_fresh_package_ids modified dir desired (some l ∷ lines)) id ≡ true
  unfolding uninstrumented_fresh_package_ids
  line-keeps l lines id h = elim (Bool-cases (is_artifact l.reason)) [
    | inr n ↦ rw n h
    | inl y ↦ elim (Option-cases l.package_id) [
      | inl n ↦ rw (y, n) h
      | inr p ↦
          let q = p.1 in
          let k =
            insert-tail (uninstrumented_fresh_package_ids modified dir desired lines) (p.0) id h in
          ground arith
    ]
  ]

  pub fresh-has :
      (m : Message) (id : String) (lines : Lines)
      → IsLine m lines
      → is_artifact m.reason ≡ true
      → m.package_id ≡ some id
      → contains desired id ≡ true
      → or_false m.fresh ≡ true
      → (is_certified modified dir m ≡ true)
        ⊎ (contains (uninstrumented_fresh_package_ids modified dir desired lines) id ≡ true)
  unfolding uninstrumented_fresh_package_ids
  fresh-has m id _ (here lines) a p d f = elim (Bool-cases (is_certified modified dir m)) [
    | inl c ↦ inl c
    | inr c ↦
        let k = insert-head (uninstrumented_fresh_package_ids modified dir desired lines) id in
        inr (ground arith)
  ]
  fresh-has m id _ (there none lines i) a p d f = fresh-has m id lines i a p d f
  fresh-has m id _ (there (some l) lines i) a p d f = elim (fresh-has m id lines i a p d f) [
    | inl c ↦ inl c
    | inr k ↦ inr (line-keeps l lines id k)
  ]

pub contains-intersection :
    (xs ys : List String) (id : String)
    → contains xs id ≡ true
    → contains ys id ≡ true
    → contains (intersection xs ys) id ≡ true
unfolding intersection
contains-intersection [] ys id h k = h
contains-intersection (x ∷ xs) ys id h k = elim (contains-cons x id xs h) [
  | inl e ↦
      let here_too = subst (λ y. contains ys y ≡ true) (sym e) k in
      rw here_too (
        subst (λ y. contains (x ∷ intersection xs ys) y ≡ true) e
          (contains-head x (intersection xs ys)))
  | inr l ↦
      let i = contains-intersection xs ys id l k in
      let j = contains-tail x id (intersection xs ys) i in ground arith
]

pub union-left :
    (xs ys : List String) (id : String) → contains xs id ≡ true → contains (union xs ys) id ≡ true
unfolding union
union-left [] ys id h = contains-none id h
union-left (x ∷ xs) ys id h = elim (contains-cons x id xs h) [
  | inl e ↦ subst (λ y. contains (insert (union xs ys) x) y ≡ true) e (insert-head (union xs ys) x)
  | inr l ↦ insert-tail (union xs ys) x id (union-left xs ys id l)
]

pub union-right :
    (xs ys : List String) (id : String) → contains ys id ≡ true → contains (union xs ys) id ≡ true
unfolding union
union-right [] ys id h = h
union-right (x ∷ xs) ys id h = insert-tail (union xs ys) x id (union-right xs ys id h)

pub contains-difference :
    (xs ys : List String) (id : String)
    → contains xs id ≡ true
    → contains ys id ≡ false
    → contains (difference xs ys) id ≡ true
unfolding difference
contains-difference [] ys id h k = h
contains-difference (x ∷ xs) ys id h k = elim (contains-cons x id xs h) [
  | inl e ↦
      let not_there = subst (λ y. contains ys y ≡ false) (sym e) k in
      rw not_there (
        subst (λ y. contains (x ∷ difference xs ys) y ≡ true) e
          (contains-head x (difference xs ys)))
  | inr l ↦
      let i = contains-difference xs ys id l k in
      let j = contains-tail x id (difference xs ys) i in ground arith
]

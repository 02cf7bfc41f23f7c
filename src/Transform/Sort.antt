-- ===== src/Transform/Sort.antt =====
-- `sort_by`: a stable sort. The order is a Boolean test; its laws are hypotheses of the lemmas.
use mathlib.Core.List.{Perm}
use mathlib.Core.List.Perm
use rust_compile_time_instru.Prelude.{
  ℕ, suc, ◌≤◌, ◌≡◌, refl, Bool, true, false, List, [], ◌∷◌, ◌++◌, All, length, if◌then◌else◌,
  Bool-cases, inl, inr, arith,
}

module _ {A : Type 0} (le : A → A → Bool) where
  -- `x` stood before every element of the sorted list, so it goes before its equals.
  unfoldable pub insert : A → List A → List A
  insert x [] = x ∷ []
  insert x (y ∷ ys) = if le x y then x ∷ y ∷ ys else y ∷ insert x ys

  unfoldable pub sort : List A → List A
  sort [] = []
  sort (x ∷ xs) = insert x (sort xs)

  pub insert-All : (P : A → Type 0) (x : A) (xs : List A) → P x → All P xs → All P (insert x xs)
  unfolding insert
  insert-All P x [] p ps = (p, tt)
  insert-All P x (y ∷ ys) p ps = elim (Bool-cases (le x y)) [
    | inl e ↦ rw e (p, ps)
    | inr e ↦ rw e (ps.0, insert-All P x ys p ps.1)
  ]

  pub sort-All : (P : A → Type 0) (xs : List A) → All P xs → All P (sort xs)
  unfolding sort
  sort-All P [] ps = tt
  sort-All P (x ∷ xs) ps = insert-All P x (sort xs) ps.0 (sort-All P xs ps.1)

  pub length-insert : (x : A) (xs : List A) → length (insert x xs) ≡ suc (length xs)
  unfolding insert
  length-insert x [] = refl
  length-insert x (y ∷ ys) = ground (arith, length-insert x ys)

  pub length-sort : (xs : List A) → length (sort xs) ≡ length xs
  unfolding sort
  length-sort [] = refl
  length-sort (x ∷ xs) = omega (arith, length-insert x (sort xs), length-sort xs)

module _ {A : Type 0} (le : A → A → Bool) where
  insert-perm : (x : A) (xs : List A) → Perm (x ∷ xs) (insert le x xs)
  unfolding insert
  insert-perm x [] = Perm.refl (x ∷ [])
  insert-perm x (y ∷ ys) = elim (Bool-cases (le x y)) [
    | inl e ↦ rw e (Perm.refl (x ∷ y ∷ ys))
    | inr e ↦ rw e (Perm.trans (Perm.swap y x ys) (Perm.cons y (insert-perm x ys)))
  ]

  -- Sorting rearranges.
  pub sort-perm : (xs : List A) → Perm xs (sort le xs)
  unfolding sort
  sort-perm [] = Perm.refl []
  sort-perm (x ∷ xs) = Perm.trans (Perm.cons x (sort-perm xs)) (insert-perm x (sort le xs))

-- From the bound `k` on, no key is below the key before it.
abbrev pub Ascending : {A : Type 0} → (A → ℕ) → ℕ → List A → Type 0
Ascending key k [] = Unit
Ascending key k (x ∷ xs) = (k ≤ key x) × Ascending key (key x) xs

module _ {A : Type 0} (le : A → A → Bool) (key : A → ℕ)
    (le_key : (x y : A) → le x y ≡ true → key x ≤ key y)
    (gt_key : (x y : A) → le x y ≡ false → key y ≤ key x) where
  insert-Ascending :
      (k : ℕ) (x : A) (xs : List A)
      → k ≤ key x
      → Ascending key k xs
      → Ascending key k (insert le x xs)
  unfolding insert
  insert-Ascending k x [] h s = (h, tt)
  insert-Ascending k x (y ∷ ys) h s = elim (Bool-cases (le x y)) [
    | inl e ↦ rw e (h, (le_key x y e, s.1))
    | inr e ↦ rw e (s.0, insert-Ascending (key y) x ys (gt_key x y e) s.1)
  ]

  pub sort-Ascending : (xs : List A) → Ascending key 0 (sort le xs)
  unfolding sort
  sort-Ascending [] = tt
  sort-Ascending (x ∷ xs) = insert-Ascending 0 x (sort le xs) (omega arith) (sort-Ascending xs)

module _ {A : Type 0} (key : A → ℕ) where
  pub Ascending-weaken : (k m : ℕ) (xs : List A) → k ≤ m → Ascending key m xs → Ascending key k xs
  Ascending-weaken k m [] le up = tt
  Ascending-weaken k m (x ∷ xs) le up = (omega arith, up.1)

  pub Ascending-append :
      (k m : ℕ) (xs ys : List A)
      → Ascending key k xs
      → All (λ x. key x ≤ m) xs
      → k ≤ m
      → Ascending key m ys
      → Ascending key k (xs ++ ys)
  Ascending-append k m [] ys up below le later = Ascending-weaken k m ys le later
  Ascending-append k m (x ∷ xs) ys up below le later =
      (up.0, Ascending-append (key x) m xs ys up.1 below.1 below.0 later)

-- ===== src/Bytes/Replace.antt =====
-- `str::replace`, where the program uses it.
use rust_compile_time_instru.Prelude.{
  ℕ, zero, suc, ◌+◌, ◌-◌, ◌≤◌, ◌≡◌, refl, ap, ◌∙◌, inl, inr, none, some, [], ◌∷◌, ◌++◌, arith,
  Option-cases, length, length-append,
}
use rust_compile_time_instru.Bytes.{Bytes, strip_prefix}

-- `text.replace(pattern, with)`, for a pattern that is not empty: `skip` bytes belong to the match
-- that was just replaced.
replace_from : Bytes → Bytes → ℕ → Bytes → Bytes
replace_from pattern with skip [] = []
replace_from pattern with (suc skip) (b ∷ text) = replace_from pattern with skip text
replace_from pattern with zero (b ∷ text) =
    let hit = with ++ replace_from pattern with (length pattern - 1) text in
    let miss = b ∷ replace_from pattern with zero text in
    elim (strip_prefix (b ∷ text) pattern) [ none ↦ miss | some rest ↦ hit ]

unfoldable pub replace : Bytes → Bytes → Bytes → Bytes
unfolding replace_from
replace pattern with text = replace_from pattern with zero text

length-strip_prefix : (s p rest : Bytes) → strip_prefix s p ≡ some rest → length p ≤ length s
unfolding strip_prefix
length-strip_prefix s [] rest h = omega arith
length-strip_prefix [] (b ∷ p) rest h = absurd cc
length-strip_prefix (a ∷ s) (b ∷ p) rest h = let i = length-strip_prefix s p rest in ground arith

-- The text is shorter, or is the same.
abbrev pub Shortens : Bytes → Bytes → Type 0
Shortens s r = (length r ≤ length s) × (length r ≡ length s → r ≡ s)

module _ (pattern with : Bytes) (shorter : suc (length with) ≤ length pattern) where
  missed :
      (b : ℕ) (text : Bytes)
      → strip_prefix (b ∷ text) pattern ≡ none
      → replace_from pattern with zero (b ∷ text) ≡ b ∷ replace_from pattern with zero text
  unfolding replace_from
  missed b text n = rw (replace_from, n) refl

  hit :
      (b : ℕ) (text rest : Bytes)
      → strip_prefix (b ∷ text) pattern ≡ some rest
      → replace_from pattern with zero (b ∷ text)
        ≡ with ++ replace_from pattern with (length pattern - 1) text
  unfolding replace_from
  hit b text rest n = rw (replace_from, n) refl

  replace_from-Shortens :
      (skip : ℕ) (s : Bytes)
      → skip ≤ length s
      → (length (replace_from pattern with skip s) + skip ≤ length s)
        × (skip ≡ 0
            → length (replace_from pattern with skip s) ≡ length s
            → replace_from pattern with skip s ≡ s)
  unfolding replace_from
  replace_from-Shortens skip [] h = (omega (arith, h), λ e k. refl)
  replace_from-Shortens (suc skip) (b ∷ text) h =
      let i = replace_from-Shortens skip text (omega (arith, h)) in
      (omega (arith, i.0), λ e k. absurd (omega (arith, e)))
  replace_from-Shortens zero (b ∷ text) h = elim (Option-cases (strip_prefix (b ∷ text) pattern)) [
    | inl n ↦
        let i = replace_from-Shortens zero text (omega arith) in
        let same = missed b text n in
        let l = ap (λ t. length t) same in
        (omega (arith, i.0, l), λ e k. same ∙ ap (λ t. b ∷ t) (i.1 refl (omega (arith, k, l))))
    | inr r ↦
        let fits = length-strip_prefix (b ∷ text) pattern (r.0) r.1 in
        let i = replace_from-Shortens (length pattern - 1) text (omega (arith, fits, shorter)) in
        let l = length-append with (replace_from pattern with (length pattern - 1) text) in
        let m = ap (λ t. length t) (hit b text (r.0) r.1) in
        (
          omega (arith, i.0, l, m, shorter, fits),
          λ e k. absurd (omega (arith, i.0, l, m, shorter, fits, k)),
        )
  ]

  pub replace-Shortens : (s : Bytes) → Shortens s (replace pattern with s)
  unfolding replace
  replace-Shortens s =
      let r = replace_from-Shortens zero s (omega arith) in (omega (arith, r.0), λ k. r.1 refl k)

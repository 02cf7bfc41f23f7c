-- ===== src/Ast/Names/Stable.antt =====
-- `normalize_type_str` ends where nothing is left to collapse.
use rust_compile_time_instru.Prelude.{
  ℕ, zero, suc, ◌≤◌, ◌≡◌, refl, sym, ◌∙◌, subst, ◌⊎◌, inl, inr, true, false, [], ◌∷◌, arith,
  Bool-cases, length,
}
use rust_compile_time_instru.Bytes.{Bytes, compare_bytes, trim_start}
use rust_compile_time_instru.Bytes.Replace.{Shortens, replace, replace-Shortens}
use rust_compile_time_instru.Ast.Names.{
  collapse, same_bytes, collapse_all, trim_end, normalize_type_str,
}

Shortens-trans : (s r t : Bytes) → Shortens s r → Shortens r t → Shortens s t
Shortens-trans s r t a b = (
  omega (arith, a.0, b.0),
  λ k. b.1 (omega (arith, a.0, b.0, k)) ∙ a.1 (omega (arith, a.0, b.0, k)),
)

replaced :
    (pattern with s r : Bytes)
    → suc (length with) ≤ length pattern
    → Shortens s r
    → Shortens s (replace pattern with r)
replaced pattern with s r shorter h =
    Shortens-trans s r (replace pattern with r) h (replace-Shortens pattern with shorter r)

collapse-Shortens : (s : Bytes) → Shortens s (collapse s)
unfolding collapse
collapse-Shortens s = replaced _ _ s _ (omega arith) (
    replaced _ _ s _ (omega arith) (
      replaced _ _ s _ (omega arith) (
        replaced _ _ s _ (omega arith) (
          replaced _ _ s _ (omega arith) (
            replaced _ _ s _ (omega arith) (
              replaced _ _ s _ (omega arith) (
                replaced _ _ s _ (omega arith)
                  (replaced _ _ s _ (omega arith) (replace-Shortens _ _ (omega arith) s)))))))))

same_bytes_sound : (s t : Bytes) → same_bytes s t ≡ true → s ≡ t
unfolding compare_bytes
same_bytes_sound [] [] h = refl
same_bytes_sound [] (b ∷ t) h = absurd cc
same_bytes_sound (a ∷ s) [] h = absurd cc
same_bytes_sound (a ∷ s) (b ∷ t) h = let i = same_bytes_sound s t in ground arith

same_bytes_refl : (s : Bytes) → same_bytes s s ≡ true
unfolding compare_bytes
same_bytes_refl [] = refl
same_bytes_refl (a ∷ s) = let i = same_bytes_refl s in ground arith

strictly : (s r : Bytes) → Shortens s r → same_bytes s r ≡ false → suc (length r) ≤ length s
strictly s r c e =
    let d : (length r ≡ length s) ⊎ (suc (length r) ≤ length s) = ground (arith, c.0) in
    elim d [
      | inr less ↦ less
      | inl same ↦
          absurd (cc (e, subst (λ x. same_bytes s x ≡ true) (sym (c.1 same)) (same_bytes_refl s)))
    ]

-- Nothing is left to collapse.
abbrev pub IsStable : Bytes → Type 0
IsStable s = collapse s ≡ s

collapse_all-IsStable :
    (fuel : ℕ) (prev : Bytes)
    → suc (length prev) ≤ fuel
    → IsStable (collapse_all fuel prev (collapse prev))
unfolding collapse_all
collapse_all-IsStable zero prev enough = absurd (omega (arith, enough))
collapse_all-IsStable (suc fuel) prev enough =
    let c = collapse-Shortens prev in
    elim (Bool-cases (same_bytes prev (collapse prev))) [
      | inl e ↦
          let same = same_bytes_sound prev (collapse prev) e in
          rw e (subst IsStable same (sym same))
      | inr e ↦
          let less : suc (length (collapse prev)) ≤ length prev =
            strictly prev (collapse prev) c e in
          rw e (collapse_all-IsStable fuel (collapse prev) (omega (arith, enough, less)))
    ]

collapse_none : IsStable []
collapse_none = let c = collapse-Shortens [] in c.1 (omega (arith, c.0))

first_pass : (out : Bytes) → IsStable (collapse_all (suc (suc (length out))) [] out)
unfolding collapse_all
first_pass out = elim (Bool-cases (same_bytes [] out)) [
  | inl e ↦ rw e (subst IsStable (same_bytes_sound [] out e) collapse_none)
  | inr e ↦ rw e (collapse_all-IsStable (suc (length out)) out (omega arith))
]

-- The loop ends within its fuel: in the name that it gives nothing is left to collapse.
pub normalize_type_str-IsStable : (s : Bytes) → IsStable (normalize_type_str s)
unfolding normalize_type_str
normalize_type_str-IsStable s = first_pass (trim_end (trim_start s))

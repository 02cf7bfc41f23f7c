-- ===== src/Transform/Apply/Woven.antt =====
-- What splicing means: the source, byte for byte, with each replacement at its own offset.
use rust_compile_time_instru.Prelude.{
  ℕ, zero, suc, ◌+◌, ◌-◌, ◌≤◌, ◌≡◌, refl, sym, ap, ◌∙◌, subst, true, none, some, List, [], ◌∷◌,
  ◌++◌, All, length, take, drop, length-drop, arith, ok,
}
use rust_compile_time_instru.Bytes.{Bytes, is_char_boundary}
use rust_compile_time_instru.Bytes.Slices.{slice-some, boundary_zero, slice_to_end}
use rust_compile_time_instru.Transform.Sort.{Ascending}
use rust_compile_time_instru.Transform.{ByteEdit, TransformationPlan}
use rust_compile_time_instru.Transform.Build.Edits.{FitsIn}
use rust_compile_time_instru.Transform.Apply.{apply, splice, edit_error}

-- `Woven o s es out`: from offset `o`, where the source goes on with `s`, the output is `out`.
pub data Woven : ℕ → Bytes → List ByteEdit → Bytes → Type 0 where
  rest : {o : ℕ} {s : Bytes} → Woven o s [] s
  keep :
      {o : ℕ} {s out : Bytes} {es : List ByteEdit} (b : ℕ)
      → Woven (suc o) s es out
      → Woven o (b ∷ s) es (b ∷ out)
  splice_in :
      {o : ℕ} {s out : Bytes} {es : List ByteEdit} (e : ByteEdit)
      → e.start ≡ o
      → Woven o s es out
      → Woven o s (e ∷ es) (e.replacement ++ out)

keep_many :
    (n o : ℕ) (s out : Bytes) (es : List ByteEdit)
    → n ≤ length s
    → Woven (n + o) (drop n s) es out
    → Woven o s es (take n s ++ out)
keep_many zero o s out es fits w = subst (λ k. Woven k s es out) (omega arith) w
keep_many (suc n) o [] out es fits w = absurd (omega arith)
keep_many (suc n) o (b ∷ s) out es fits w = keep b (
    keep_many n (suc o) s out es (omega arith)
      (subst (λ k. Woven k (drop n s) es out) (omega arith) w))

drop-drop : (m n : ℕ) (s : Bytes) → drop m (drop n s) ≡ drop (m + n) s
drop-drop m zero s = ap (λ k. drop k s) (let e : m ≡ m + zero = omega arith in e)
drop-drop zero (suc n) [] =
    ap (λ k. drop {A = ℕ} k []) (let e : suc n ≡ zero + suc n = omega arith in e)
drop-drop (suc m) (suc n) [] = drop-nil (suc m + suc n)
  where
    drop-nil : (k : ℕ) → [] ≡ drop {A = ℕ} k []
    drop-nil zero = refl
    drop-nil (suc k) = refl
drop-drop m (suc n) (b ∷ s) =
    drop-drop m n s ∙ ap (λ k. drop k (b ∷ s)) (let e : suc (m + n) ≡ m + suc n = omega arith in e)

edit_error-FitsIn : (source : Bytes) (e : ByteEdit) → FitsIn source e → edit_error source e ≡ none
unfolding edit_error
edit_error-FitsIn source e f = rw (← f.pure_insertion, f.on_boundary) (ground arith)

abbrev Spliced : Bytes → ℕ → List ByteEdit → Type 0
Spliced source k es =
    (out : Bytes) × (splice source k es ≡ some (ok out)) × Woven k (drop k source) es out

-- An insertion at `e.start`, reached from offset `k`.
Woven-step :
    (source out : Bytes) (k : ℕ) (e : ByteEdit) (es : List ByteEdit)
    → k ≤ e.start
    → e.start ≤ length source
    → Woven e.start (drop e.start source) es out
    → Woven k
        (drop k source)
        (e ∷ es)
        (take (e.start - k) (drop k source) ++ (e.replacement ++ out))
Woven-step source out k e es lo hi w =
    let here : e.start ≡ e.start - k + k = omega arith in
    let moved : drop e.start source ≡ drop (e.start - k) (drop k source) =
      ap (λ n. drop n source) here ∙ sym (drop-drop (e.start - k) k source) in
    keep_many (e.start - k) k (drop k source) _ _ (omega (arith, length-drop k source)) (
      splice_in e here (
        subst (λ s. Woven (e.start - k + k) s es out) moved
          (subst (λ n. Woven n (drop e.start source) es out) here w)))

splice-Woven :
    (source : Bytes) (k : ℕ) (es : List ByteEdit)
    → k ≤ length source
    → is_char_boundary source k ≡ true
    → All (FitsIn source) es
    → Ascending (λ e. e.start) k es
    → Spliced source k es
unfolding splice
splice-Woven source k [] fits b all up =
    (drop k source, rw (slice_to_end source k fits b, splice), rest)
splice-Woven source k (e ∷ es) fits b (f, fs) (lo, up) =
    let (out, spliced, woven) = splice-Woven source e.start es f.in_bounds f.on_boundary fs up in
    let later = subst (λ n. splice source n es ≡ some (ok out)) f.pure_insertion spliced in
    let kept = slice-some source k e.start lo f.in_bounds b f.on_boundary in
    (
      take (e.start - k) (drop k source) ++ (e.replacement ++ out),
      rw (edit_error-FitsIn source e f, kept, later, splice),
      Woven-step source out k e es lo f.in_bounds woven,
    )

pub apply-Woven :
    (source : Bytes) (plan : TransformationPlan)
    → All (FitsIn source) plan.edits
    → Ascending (λ e. e.start) 0 plan.edits
    → (out : Bytes) × (apply plan source ≡ some (ok out)) × Woven 0 source plan.edits out
unfolding apply
apply-Woven source plan fits up =
    splice-Woven source 0 plan.edits (omega arith) (boundary_zero source) fits up

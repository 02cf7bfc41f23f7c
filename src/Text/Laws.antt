-- ===== src/Text/Laws.antt =====
-- Laws of the text operations.
use Prim.Native.Char.{Char, code}
use text.Mathlib.TextLemmas.{nil-append, cons-append, cons-eq-cons}
use text.Mathlib.TextEquality.{Char-path}
use rust_compile_time_instru.Prelude.{
  ℕ, String, none, some, ◌≡◌, ◌≢◌, refl, sym, ap, ◌∙◌, arith, ◌==◌, ◌<>◌, Bool-cases, inl, inr,
  ==_iff,
}
use rust_compile_time_instru.Text.{strip_prefix, normalize, dash_to_underscore, Lacks}

-- Stripping gives the rest only where the text is the prefix and that rest.
pub strip_prefix_sound : (s p r : String) → strip_prefix s p ≡ some r → s ≡ p <> r
unfolding strip_prefix
strip_prefix_sound s String.[] r h = rw nil-append (ground arith)
strip_prefix_sound String.[] (String.◌∷◌ b p) r h = cc
strip_prefix_sound (String.◌∷◌ a s) (String.◌∷◌ b p) r h = elim (Bool-cases (code a == code b)) [
  | inl e ↦
      rw (cons-append, Char-path a b ((==_iff _ _).0 e))
        (ap (String.◌∷◌ b) (strip_prefix_sound s p r (rw e at h)))
  | inr n ↦ absurd (let bad : none ≡ some r = rw n at h in cc)
]

pub strip_prefix-append : (p r : String) → strip_prefix (p <> r) p ≡ some r
unfolding strip_prefix
strip_prefix-append String.[] r = rw nil-append
strip_prefix-append (String.◌∷◌ b p) r =
    rw (cons-append, (==_iff (code b) (code b)).1 refl) (strip_prefix-append p r)

underscore-code : code "_" ≡ b'_'
underscore-code = refl

dash_to_underscore-ne : (a : Char) → code (dash_to_underscore a) ≢ b'-'
unfolding dash_to_underscore
dash_to_underscore-ne a = elim (Bool-cases (code a == b'-')) [
  | inl e ↦ rw (e, underscore-code) (omega arith)
  | inr n ↦ rw n (λ e. cc (n, (==_iff (code a) b'-').1 e))
]

dash_to_underscore_idem :
    (a : Char) → dash_to_underscore (dash_to_underscore a) ≡ dash_to_underscore a
unfolding dash_to_underscore
dash_to_underscore_idem a = ground arith

-- Normalising a name twice is normalising it once.
pub normalize_idem : (s : String) → normalize (normalize s) ≡ normalize s
unfolding normalize
normalize_idem String.[] = refl
normalize_idem (String.◌∷◌ a s) = rw (dash_to_underscore_idem a, normalize_idem s)

-- A normalised name has no dash.
pub normalize-Lacks : (s : String) → Lacks b'-' (normalize s)
unfolding normalize
normalize-Lacks String.[] = tt
normalize-Lacks (String.◌∷◌ a s) = (dash_to_underscore-ne a, normalize-Lacks s)

-- A text without the character reads the same up to a tail that is empty or begins with it.
abbrev pub StartsOr : ℕ → String → Type 0
StartsOr c String.[] = Unit
StartsOr c (String.◌∷◌ a s) = code a ≡ c

pub split_unique :
    (c : ℕ) (a b x y : String)
    → Lacks c a
    → Lacks c b
    → StartsOr c x
    → StartsOr c y
    → a <> x ≡ b <> y
    → (a ≡ b) × (x ≡ y)
split_unique c String.[] String.[] x y la lb sx sy e = (refl, simp nil-append at e)
split_unique c String.[] (String.◌∷◌ v b) x y la lb sx sy e =
    absurd (clash x sx (rw (nil-append, cons-append) at e))
  where
    clash : (x : String) → StartsOr c x → x ≡ String.◌∷◌ v (b <> y) → ⊥
    clash String.[] s h = cc
    clash (String.◌∷◌ w x) s h = lb.0 (ap code (sym (cons-eq-cons.0 h).0) ∙ s)
split_unique c (String.◌∷◌ u a) String.[] x y la lb sx sy e =
    absurd (clash y sy (sym (rw (nil-append, cons-append) at e)))
  where
    clash : (y : String) → StartsOr c y → y ≡ String.◌∷◌ u (a <> x) → ⊥
    clash String.[] s h = cc
    clash (String.◌∷◌ w y) s h = la.0 (ap code (sym (cons-eq-cons.0 h).0) ∙ s)
split_unique c (String.◌∷◌ u a) (String.◌∷◌ v b) x y la lb sx sy e =
    let h : String.◌∷◌ u (a <> x) ≡ String.◌∷◌ v (b <> y) = simp cons-append at e in
    let parts = cons-eq-cons.0 h in
    let rest = split_unique c a b x y la.1 lb.1 sx sy parts.1 in
    (λ i. String.◌∷◌ (parts.0 i) (rest.0 i), rest.1)

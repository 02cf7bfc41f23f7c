-- ===== src/Bytes/Slices.antt =====
-- When a slice of the source is a panic, and what it holds otherwise.
use rust_compile_time_instru.Prelude.{
  ℕ, zero, suc, ◌-◌, ◌≤◌, ◌<◌, ◌≡◌, refl, ap, ◌∙◌, Bool, true, false, ◌||◌, none, some, [], ◌∷◌,
  ◌++◌, arith, ==_iff, length, take, drop, length-append, length-drop,
}
use rust_compile_time_instru.Bytes.{Bytes, is_char_boundary, slice, byte_at, contains, strip_prefix}

pub slice-some :
    (s : Bytes) (a b : ℕ)
    → a ≤ b
    → b ≤ length s
    → is_char_boundary s a ≡ true
    → is_char_boundary s b ≡ true
    → slice s a b ≡ some (take (b - a) (drop a s))
unfolding slice
slice-some s a b le fits ba bb = ground arith

pub slice-zero_none : (s : Bytes) (b : ℕ) → is_char_boundary s b ≡ false → slice s 0 b ≡ none
unfolding slice
slice-zero_none s b h = ground arith

pub boundary_zero : (s : Bytes) → is_char_boundary s 0 ≡ true
unfolding is_char_boundary
boundary_zero s = refl

pub boundary_length : (s : Bytes) → is_char_boundary s (length s) ≡ true
unfolding is_char_boundary
boundary_length s = ground arith

pub slice-zero_cut :
    (s : Bytes) (b : ℕ) → b ≤ length s → slice s 0 b ≡ none → is_char_boundary s b ≡ false
unfolding slice
slice-zero_cut s b fits h = ground (arith, boundary_zero s)

take_all : (n : ℕ) (s : Bytes) → length s ≤ n → take n s ≡ s
take_all zero [] h = refl
take_all zero (b ∷ s) h = absurd (omega arith)
take_all (suc n) [] h = refl
take_all (suc n) (b ∷ s) h = ap (λ t. b ∷ t) (take_all n s (omega arith))

pub slice_to_end :
    (s : Bytes) (k : ℕ)
    → k ≤ length s
    → is_char_boundary s k ≡ true
    → slice s k (length s) ≡ some (drop k s)
slice_to_end s k fits b =
    slice-some s k (length s) fits (omega arith) b (boundary_length s)
    ∙ ap some (take_all (length s - k) (drop k s) (omega (arith, length-drop k s)))

contains_here : (s t r : Bytes) → strip_prefix s t ≡ some r → contains s t ≡ true
unfolding contains
contains_here [] t r h = rw h
contains_here (a ∷ s) t r h = rw h

strip_prefix-append : (t y : Bytes) → strip_prefix (t ++ y) t ≡ some y
unfolding strip_prefix
strip_prefix-append [] y = refl
strip_prefix-append (b ∷ t) y = rw ((==_iff b b).1 refl) (strip_prefix-append t y)

or_true : (b : Bool) → (b || true) ≡ true
or_true false = refl
or_true true = refl

pub contains_middle : (x t y : Bytes) → contains (x ++ (t ++ y)) t ≡ true
unfolding contains
contains_middle [] t y = contains_here (t ++ y) t y (strip_prefix-append t y)
contains_middle (a ∷ x) t y = rw (contains_middle x t y) (or_true _)

pub drop_past : (pre : Bytes) (b : ℕ) (t : Bytes) → drop (suc (length pre)) (pre ++ b ∷ t) ≡ t
drop_past [] b t = refl
drop_past (a ∷ pre) b t = drop_past pre b t

pub byte_at_past :
    (pre : Bytes) (b c : ℕ) (t : Bytes) → byte_at (pre ++ b ∷ c ∷ t) (suc (length pre)) ≡ c
byte_at_past [] b c t = refl
byte_at_past (a ∷ pre) b c t = byte_at_past pre b c t

-- A byte that does not continue a character starts one.
pub boundary_past :
    (pre : Bytes) (b c : ℕ) (t : Bytes)
    → c < 128
    → is_char_boundary (pre ++ b ∷ c ∷ t) (suc (length pre)) ≡ true
unfolding is_char_boundary
boundary_past pre b c t ascii =
    let size = length-append pre (b ∷ c ∷ t) in let at = byte_at_past pre b c t in ground arith

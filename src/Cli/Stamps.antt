-- ===== src/Cli/Stamps.antt =====
-- The stamp that is looked for beside an artifact, against the one that is written with it.
use rust_compile_time_instru.Prelude.{
  String, ◌<>◌, eq_iff, str_eq, ◌≡◌, refl, sym, ap, ◌∙◌, subst, ℕ, none, inl, inr, arith,
  Option-cases, Bool-cases,
}
use text.Mathlib.TextLemmas.{
  nil-append, cons-append, append-nil, append_assoc, append_cancel_right, append-eq-nil_iff,
}
use rust_compile_time_instru.Text.{normalize, strip_prefix, Lacks}
use rust_compile_time_instru.Text.Laws.{
  strip_prefix-append, strip_prefix_sound, normalize_idem, normalize-Lacks, StartsOr, split_unique,
}
use rust_compile_time_instru.Unit.{instrumentation_stamp_name}
use rust_compile_time_instru.Cli.{artifact_stamp_name}

stamp_normalize :
    (name extra : String)
    → instrumentation_stamp_name (normalize name) extra ≡ instrumentation_stamp_name name extra
unfolding instrumentation_stamp_name
stamp_normalize name extra = elim (Option-cases (strip_prefix extra "-")) [
  | inl n ↦ rw (normalize_idem name, n) refl
  | inr h ↦ rw (h.1, normalize_idem name) refl
]

Lacks-append : (c : ℕ) (s t : String) → Lacks c s → Lacks c t → Lacks c (s <> t)
Lacks-append c String.[] t h k = rw nil-append k
Lacks-append c (String.◌∷◌ a s) t h k = rw cons-append (h.0, Lacks-append c s t h.1 k)

in_library : (n : String) → Lacks b'-' n → Lacks b'-' ("lib" <> n)
in_library n h = Lacks-append b'-' "lib" n (omega arith, (omega arith, (omega arith, tt))) h

abbrev IsTail : String → Type 0
IsTail t = StartsOr b'-' t

-- A name without a dash is no other name's beginning up to the dash.
other_name :
    (a b t : String)
    → Lacks b'-' a
    → Lacks b'-' b
    → IsTail t
    → ((b ≡ a) → ⊥)
    → strip_prefix (a <> t) (b <> "-") ≡ none
other_name a b t la lb st differs = elim (Option-cases (strip_prefix (a <> t) (b <> "-"))) [
  | inl n ↦ n
  | inr r ↦
      let e = strip_prefix_sound (a <> t) (b <> "-") (r.0) r.1 ∙ append_assoc b "-" (r.0) in
      absurd
        (differs (sym (split_unique b'-' a b t ("-" <> r.0) la lb st (rw cons-append refl) e).0))
]

no_dash : (a b : String) → Lacks b'-' a → Lacks b'-' b → strip_prefix a (b <> "-") ≡ none
no_dash a b la lb = elim (Option-cases (strip_prefix a (b <> "-"))) [
  | inl n ↦ n
  | inr r ↦
      let e = strip_prefix_sound a (b <> "-") (r.0) r.1 ∙ append_assoc b "-" (r.0) in
      let parts =
        split_unique b'-' a b "" ("-" <> r.0) la lb tt (rw cons-append refl) (append-nil a ∙ e) in
      absurd (cc ((append-eq-nil_iff.0 (sym parts.1)).0))
]

no_library : (n : String) → (n ≡ "lib" <> n) → ⊥
no_library n e = cc (append_cancel_right "" "lib" n (nil-append n ∙ e))

module _ (name : String) where
  hashed :
      (hash : String)
      → artifact_stamp_name (normalize name) ((normalize name <> "-") <> hash)
        ≡ instrumentation_stamp_name name ("-" <> hash)
  unfolding artifact_stamp_name
  hashed hash =
      let p = strip_prefix-append (normalize name <> "-") hash in
      let q = stamp_normalize name ("-" <> hash) in ground arith

  library_hashed :
      (hash : String)
      → artifact_stamp_name (normalize name) (("lib" <> normalize name <> "-") <> hash)
        ≡ instrumentation_stamp_name name ("-" <> hash)
  unfolding artifact_stamp_name
  library_hashed hash =
      let p = strip_prefix-append ("lib" <> normalize name <> "-") hash in
      let q = stamp_normalize name ("-" <> hash) in
      let l = normalize-Lacks name in
      let o =
        other_name ("lib" <> normalize name) (normalize name) ("-" <> hash)
          (in_library (normalize name) l) l (rw cons-append refl) (no_library (normalize name)) in
      let shape : ("lib" <> normalize name) <> ("-" <> hash)
          ≡ ("lib" <> normalize name <> "-") <> hash =
        append_assoc "lib" (normalize name) ("-" <> hash)
        ∙ ap (λ x. "lib" <> x) (sym (append_assoc (normalize name) "-" hash))
        ∙ sym (append_assoc "lib" (normalize name <> "-") hash) in
      let n = subst (λ x. strip_prefix x (normalize name <> "-") ≡ none) shape o in
      rw (artifact_stamp_name, n, p) q

  plain : artifact_stamp_name (normalize name) (normalize name) ≡ instrumentation_stamp_name name ""
  unfolding artifact_stamp_name
  plain =
      let l = normalize-Lacks name in
      let n = no_dash (normalize name) (normalize name) l l in
      let m =
        no_dash (normalize name) ("lib" <> normalize name) l (in_library (normalize name) l) in
      let m' : strip_prefix (normalize name) ("lib" <> normalize name <> "-") ≡ none =
        subst (λ x. strip_prefix (normalize name) x ≡ none)
          (append_assoc "lib" (normalize name) "-") m in
      let q = stamp_normalize name "" in
      let s = (eq_iff (normalize name) (normalize name)).1 refl in
      rw (artifact_stamp_name, n, m', s) q

  library_plain :
      artifact_stamp_name (normalize name) ("lib" <> normalize name)
      ≡ instrumentation_stamp_name name ""
  unfolding artifact_stamp_name
  library_plain =
      let l = normalize-Lacks name in
      let k = in_library (normalize name) l in
      let n = no_dash ("lib" <> normalize name) (normalize name) k l in
      let m = no_dash ("lib" <> normalize name) ("lib" <> normalize name) k k in
      let m' : strip_prefix ("lib" <> normalize name) ("lib" <> normalize name <> "-") ≡ none =
        subst (λ x. strip_prefix ("lib" <> normalize name) x ≡ none)
          (append_assoc "lib" (normalize name) "-") m in
      let q = stamp_normalize name "" in
      let s = (eq_iff ("lib" <> normalize name) ("lib" <> normalize name)).1 refl in
      elim (Bool-cases (str_eq ("lib" <> normalize name) (normalize name))) [
        | inl e ↦ rw (artifact_stamp_name, n, m', e) q
        | inr e ↦ rw (artifact_stamp_name, n, m', e, s) q
      ]

-- The stem of an artifact of the crate, with a prefix and with a hash behind a dash or neither.
abbrev pub Finds : String → String → String → Type 0
Finds name stem extra =
    artifact_stamp_name (normalize name) stem ≡ instrumentation_stamp_name name extra

-- For every artifact that is named after its crate, with or without `lib` in front, the stamp that is
-- looked for is the one that compiling the crate writes: with a hash behind a dash, that for this
-- `extra-filename`, whether or not it is a stamp at all; with no hash, that for no `extra-filename`.
pub stamp_of_artifact :
    (name hash : String)
    → Finds name ((normalize name <> "-") <> hash) ("-" <> hash)
      × Finds name (("lib" <> normalize name <> "-") <> hash) ("-" <> hash)
      × Finds name (normalize name) ""
      × Finds name ("lib" <> normalize name) ""
stamp_of_artifact name hash =
    (hashed name hash, library_hashed name hash, plain name, library_plain name)

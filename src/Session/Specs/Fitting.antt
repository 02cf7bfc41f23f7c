-- ===== src/Session/Specs/Fitting.antt =====
-- What a specification asks for, and which packages fit it.
use Prim.Native.Char.{Char, code}
use text.Mathlib.TextLemmas.{nil-append, cons-append, append-nil}
use rust_compile_time_instru.Prelude.{
  ℕ, String, ◌<>◌, ◌≡◌, refl, sym, ap, ◌∙◌, subst, ◌≢◌, ◌⊎◌, inl, inr, true, Option, none, some,
  List, [], ◌∷◌, ◌++◌, arith, eq_iff, ◌==◌, str_eq, ==_iff, Bool-cases, Option-cases, All,
}
use rust_compile_time_instru.Text.{normalize, starts_with, split_once, strip_prefix, Lacks}
use rust_compile_time_instru.Text.Laws.{strip_prefix-append, strip_prefix_sound}
use rust_compile_time_instru.Session.Register.{Package}
use rust_compile_time_instru.Session.Specs.{name_and_version, is_version, matches_fields, matching}

-- The two parts of a text around the first `c`.
abbrev pub IsParted : ℕ → String → String → String → Type 0
IsParted c s before after =
    (a : Char) × (code a ≡ c) × (s ≡ before <> String.◌∷◌ a after) × Lacks c before

split-none : (c : ℕ) (s : String) → split_once c s ≡ none → Lacks c s
unfolding split_once
split-none c String.[] h = tt
split-none c (String.◌∷◌ a s) h = elim (Option-cases (split_once c s)) [
  | inl n ↦ let i = split-none c s n in (ground arith, i)
  | inr p ↦ let q = p.1 in absurd (ground arith)
]

split-some :
    (c : ℕ) (s : String) (p : String × String) → split_once c s ≡ some p → IsParted c s (p.0) (p.1)
unfolding split_once
split-some c String.[] p h = absurd cc
split-some c (String.◌∷◌ a s) p h = elim (Bool-cases (code a == c)) [
  | inl e ↦
      let found : some ("", s) ≡ some p = rw e at h in
      let same : ("", s) ≡ p = cc found in
      subst (λ q. IsParted c (String.◌∷◌ a s) (q.0) (q.1)) same
        (a, (==_iff (code a) c).0 e, sym (nil-append (String.◌∷◌ a s)), tt)
  | inr n ↦ elim (Option-cases (split_once c s)) [
    | inl z ↦ absurd (ground arith)
    | inr r ↦
        let i = split-some c s (r.0) r.1 in
        let found : some (String.◌∷◌ a (r.0.0), r.0.1) ≡ some p = rw (n, r.1) at h in
        let same : (String.◌∷◌ a (r.0.0), r.0.1) ≡ p = cc found in
        let differs : code a ≢ c = ground arith in
        subst (λ q. IsParted c (String.◌∷◌ a s) (q.0) (q.1)) same
          (i.0, i.1, ap (String.◌∷◌ a) i.2 ∙ sym (cons-append a (r.0.0) _), (differs, i.3))
  ]
]

-- What a specification asks for: a name, and a version behind the first `:`, or without `:` behind the
-- first `@`.
abbrev pub Reads : String → String → Option String → Type 0
Reads spec name none = (name ≡ spec) × Lacks b':' spec × Lacks b'@' spec
Reads spec name (some version) =
    IsParted b':' spec name version ⊎ (Lacks b':' spec × IsParted b'@' spec name version)

pub name-Reads :
    (spec : String) → Reads spec ((name_and_version spec).0) ((name_and_version spec).1)
unfolding name_and_version
name-Reads spec =
    let reads = λ (q : String × Option String). Reads spec (q.0) (q.1) in
    elim (Option-cases (split_once b':' spec)) [
      | inr p ↦
          let e : name_and_version spec ≡ (p.0.0, some (p.0.1)) = rw (name_and_version, p.1) refl in
          subst reads (sym e) (inl (split-some b':' spec (p.0) p.1))
      | inl n ↦ elim (Option-cases (split_once b'@' spec)) [
        | inr p ↦
            let e : name_and_version spec ≡ (p.0.0, some (p.0.1)) =
              rw (name_and_version, n, p.1) refl in
            subst reads (sym e) (inr (split-none b':' spec n, split-some b'@' spec (p.0) p.1))
        | inl m ↦
            let e : name_and_version spec ≡ (spec, none) = rw (name_and_version, n, m) refl in
            subst reads (sym e) (refl, split-none b':' spec n, split-none b'@' spec m)
      ]
    ]

abbrev pub Accepts : Option String → String → Type 0
Accepts none version = Unit
Accepts (some required) version = (more : String) × (version ≡ required <> more)

-- A package with all three fields, with the name up to dashes, and with a version that is accepted.
abbrev pub HasFields :
    String → Option String → Option String → Option String → Option String → Type 0
HasFields name required (some id) (some n) (some version) =
    ((n ≡ name) ⊎ (normalize n ≡ normalize name)) × Accepts required version
HasFields name required _ _ _ = ⊥

abbrev pub Fits : String → Option String → Package → Type 0
Fits name required p = HasFields name required p.id p.name p.version

version_sound :
    (version : String) (required : Option String)
    → is_version version required ≡ true
    → Accepts required version
unfolding starts_with
version_sound version none h = tt
version_sound version (some r) h = elim (Bool-cases (str_eq version r)) [
  | inl e ↦ ("", (eq_iff version r).0 e ∙ sym (append-nil r))
  | inr n ↦ elim (Option-cases (strip_prefix version r)) [
    | inl z ↦ absurd (ground arith)
    | inr m ↦ (m.0, strip_prefix_sound version r (m.0) m.1)
  ]
]

version_complete :
    (version : String) (required : Option String)
    → Accepts required version
    → is_version version required ≡ true
unfolding starts_with
version_complete version none h = refl
version_complete version (some r) (more, e) =
    let s : strip_prefix version r ≡ some more =
      ap (λ v. strip_prefix v r) e ∙ strip_prefix-append r more in
    ground arith

fields_sound :
    (name : String) (required i n v : Option String) (id : String)
    → matches_fields name required i n v ≡ some id
    → (i ≡ some id) × HasFields name required i n v
fields_sound name required (some i) (some n) (some v) id h =
    let e = (eq_iff n name).0 in
    let f = (eq_iff (normalize n) (normalize name)).0 in
    let w = version_sound v required in (ground arith, (ground arith, w (ground arith)))
fields_sound name required none n v id h = absurd cc
fields_sound name required (some i) none v id h = absurd cc
fields_sound name required (some i) (some n) none id h = absurd cc

fields_complete :
    (name : String) (required i n v : Option String)
    → matches_fields name required i n v ≡ none
    → HasFields name required i n v
    → ⊥
fields_complete name required (some i) (some n) (some v) h f =
    let e = (eq_iff n name).1 in
    let g = (eq_iff (normalize n) (normalize name)).1 in
    let w = version_complete v required f.1 in let q = f.0 in ground arith
fields_complete name required none n v h f = f
fields_complete name required (some i) none v h f = f
fields_complete name required (some i) (some n) none h f = f

-- The package is the only one that fits.
abbrev pub IsOnly : String → Option String → List Package → String → Type 0
IsOnly name required packages id =
    (before : List Package) × (p : Package) × (after : List Package) × (packages
      ≡ before ++ p ∷ after)
    × (p.id ≡ some id)
    × Fits name required p
    × All (λ q. Fits name required q → ⊥) before
    × All (λ q. Fits name required q → ⊥) after

module _ (name : String) (required : Option String) where
  matching-none :
      (packages : List Package)
      → matching name required packages ≡ []
      → All (λ q. Fits name required q → ⊥) packages
  unfolding matching
  matching-none [] h = tt
  matching-none (p ∷ packages) h =
      elim (Option-cases (matches_fields name required p.id p.name p.version)) [
        | inl n ↦
            let k : matching name required packages ≡ [] = rw n at h in
            (fields_complete name required p.id p.name p.version n, matching-none packages k)
        | inr f ↦ let bad : f.0 ∷ matching name required packages ≡ [] = rw (f.1) at h in absurd cc
      ]

  pub matching-IsOnly :
      (packages : List Package) (id : String)
      → matching name required packages ≡ id ∷ []
      → IsOnly name required packages id
  unfolding matching
  matching-IsOnly [] id h = absurd cc
  matching-IsOnly (p ∷ packages) id h =
      elim (Option-cases (matches_fields name required p.id p.name p.version)) [
        | inl n ↦
            let k : matching name required packages ≡ id ∷ [] = rw n at h in
            let i = matching-IsOnly packages id k in
            let no = fields_complete name required p.id p.name p.version n in
            (p ∷ i.0, i.1, i.2, ap (λ l. p ∷ l) i.3, i.4, i.5, (no, i.6), i.7)
        | inr f ↦
            let k : f.0 ∷ matching name required packages ≡ id ∷ [] = rw (f.1) at h in
            let same : f.0 ≡ id = cc k in
            let none_left : matching name required packages ≡ [] = cc k in
            let fits = fields_sound name required p.id p.name p.version (f.0) f.1 in
            (
              [],
              p,
              packages,
              refl,
              fits.0 ∙ ap some same,
              fits.1,
              tt,
              matching-none packages none_left,
            )
      ]

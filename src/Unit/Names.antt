-- ===== src/Unit/Names.antt =====
-- The names that identify a unit: no two units share a mirror directory or a stamp.
use text.Mathlib.TextLemmas.{
  nil-append, cons-append, append-nil, append_assoc, append_cancel_left, append_cancel_right,
  cons-ne-nil,
}
use rust_compile_time_instru.Prelude.{
  String, Option, none, some, ◌≡◌, refl, sym, ap, ◌∙◌, str_eq, not, ◌||◌, ◌<>◌, eq_iff, Bool-cases,
  Option-cases, inl, inr,
}
use rust_compile_time_instru.Text.{normalize, strip_prefix, all_words, Lacks}
use rust_compile_time_instru.Text.Laws.{split_unique, StartsOr, normalize-Lacks, strip_prefix_sound}
use rust_compile_time_instru.Unit.{
  UnitKey, dir_name, instrumentation_stamp_name, stamp_head, stamp_tail,
}

-- What `dir_name` writes behind the crate name.
abbrev suffix : Option String → String
suffix none = ""
suffix (some h) = "-" <> h

dash-cons : (h : String) → "-" <> h ≡ String.◌∷◌ "-" h
dash-cons h = cons-append "-" "" h ∙ ap (String.◌∷◌ "-") (nil-append h)

suffix-StartsOr : (o : Option String) → StartsOr b'-' (suffix o)
suffix-StartsOr none = tt
suffix-StartsOr (some h) = rw (dash-cons h) refl

dir_name-suffix : (u : UnitKey) → dir_name u ≡ u.crate_name <> suffix u.metadata_hash
unfolding dir_name
dir_name-suffix u = elim (Option-cases u.metadata_hash) [
  | inl e ↦ rw e (sym (append-nil u.crate_name))
  | inr (h, e) ↦ rw e
]

suffix-inj : (a b : Option String) → suffix a ≡ suffix b → a ≡ b
suffix-inj none none e = refl
suffix-inj none (some k) e = absurd (cons-ne-nil "-" k (sym (dash-cons k) ∙ sym e))
suffix-inj (some h) none e = absurd (cons-ne-nil "-" h (sym (dash-cons h) ∙ e))
suffix-inj (some h) (some k) e = ap some (append_cancel_left "-" h k e)

-- Two units whose crate names have no dash, as rustc demands, are the same unit if their mirror
-- directories have the same name.
pub dir_name-injective :
    (u v : UnitKey)
    → Lacks b'-' u.crate_name
    → Lacks b'-' v.crate_name
    → dir_name u ≡ dir_name v
    → u ≡ v
dir_name-injective u v lu lv e =
    let split =
      split_unique b'-' u.crate_name v.crate_name (suffix u.metadata_hash) (suffix v.metadata_hash)
        lu lv (suffix-StartsOr u.metadata_hash) (suffix-StartsOr v.metadata_hash)
        (sym (dir_name-suffix u) ∙ e ∙ dir_name-suffix v) in
    λ i. record {
      crate_name = split.0 i;
      metadata_hash = suffix-inj u.metadata_hash v.metadata_hash split.1 i;
    }

abbrev stamp : String → String → String
stamp c e = stamp_head <> ((normalize c <> e) <> stamp_tail)

hashed_form :
    (c e h : String)
    → e ≡ "-" <> h
    → StartsOr b'-' e × (stamp_head <> normalize c <> "-" <> h <> stamp_tail ≡ stamp c e)
hashed_form c e h p = rw (p, dash-cons h) (refl, simp (dash-cons, append_assoc, cons-append))

stamp_form :
    (c e n : String) → instrumentation_stamp_name c e ≡ some n → StartsOr b'-' e × (stamp c e ≡ n)
unfolding instrumentation_stamp_name
stamp_form c e n h = elim (Bool-cases (str_eq e "")) [
  | inl empty ↦
      let named : some (stamp_head <> normalize c <> stamp_tail) ≡ some n = rw empty at h in
      rw ((eq_iff e "").0 empty, append-nil) (tt, cc)
  | inr full ↦ elim (Option-cases (strip_prefix e "-")) [
    | inl bare ↦ absurd (let bad : none ≡ some n = rw (full, bare) at h in cc)
    | inr (k, p) ↦ elim (Bool-cases (str_eq k "" || not (all_words k))) [
      | inl refused ↦ absurd (let bad : none ≡ some n = rw (full, p, refused) at h in cc)
      | inr word ↦
          let named : some (stamp_head <> normalize c <> "-" <> k <> stamp_tail) ≡ some n =
            rw (full, p, word) at h in
          let form = hashed_form c e k (strip_prefix_sound e "-" k p) in
          (form.0, cc (named, form.1))
    ]
  ]
]

-- Two artifacts share a transformation stamp only if their crates have the same normalised name and
-- their extra filenames are equal.
pub stamp_unit_specific :
    (c d e f n : String)
    → instrumentation_stamp_name c e ≡ some n
    → instrumentation_stamp_name d f ≡ some n
    → (normalize c ≡ normalize d) × (e ≡ f)
stamp_unit_specific c d e f n p q =
    let (se, u) = stamp_form c e n p in
    let (sf, v) = stamp_form d f n q in
    split_unique b'-' (normalize c) (normalize d) e f (normalize-Lacks c) (normalize-Lacks d) se sf
      (append_cancel_right _ _ stamp_tail (append_cancel_left stamp_head _ _ (u ∙ sym v)))

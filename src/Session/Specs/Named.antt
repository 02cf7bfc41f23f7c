-- ===== src/Session/Specs/Named.antt =====
-- What a selection means, in terms of the packages and of the texts of their specifications.
use rust_compile_time_instru.Prelude.{
  String, ◌≡◌, refl, sym, ap, subst, ◌≢◌, ◌⊎◌, inl, inr, true, false, Option, none, some, List, [],
  ◌∷◌, ◌++◌, arith, eq_iff, Bool-cases, Option-cases, All, ok, Result-cases,
}
use rust_compile_time_instru.Sets.{
  contains, insert, contains-cons, contains-head, contains-tail, contains-none, contains-insert,
  insert-head, insert-tail,
}
use rust_compile_time_instru.Session.Register.{Package}
use rust_compile_time_instru.Session.Specs.{
  has_id, is_id, name_and_version, matching, only_one, resolve_package_spec, resolve_all,
  selected_ids,
}
use rust_compile_time_instru.Session.Specs.Fitting.{Reads, IsOnly, name-Reads, matching-IsOnly}

-- A package of the list with this id.
abbrev pub IsListed : List Package → String → Type 0
IsListed packages id =
    (before : List Package) × (p : Package) × (after : List Package) × (packages
      ≡ before ++ p ∷ after)
    × (p.id ≡ some id)

is_id_sound : (id : String) (o : Option String) → is_id id o ≡ true → o ≡ some id
is_id_sound id none h = absurd cc
is_id_sound id (some i) h = ap some ((eq_iff i id).0 h)

is_id_complete : (id : String) (o : Option String) → is_id id o ≡ false → o ≢ some id
is_id_complete id none h e = absurd cc
is_id_complete id (some i) h e =
    let same : i ≡ id = cc e in let t = (eq_iff i id).1 same in cc (h, t)

listed : (packages : List Package) (id : String) → has_id packages id ≡ true → IsListed packages id
unfolding has_id
listed [] id h = absurd cc
listed (p ∷ packages) id h = elim (Bool-cases (is_id id p.id)) [
  | inl e ↦ ([], p, packages, refl, is_id_sound id p.id e)
  | inr n ↦
      let i = listed packages id (ground arith) in (p ∷ i.0, i.1, i.2, ap (λ l. p ∷ l) i.3, i.4)
]

unlisted :
    (packages : List Package) (id : String)
    → has_id packages id ≡ false
    → All (λ p. p.id ≢ some id) packages
unfolding has_id
unlisted [] id h = tt
unlisted (p ∷ packages) id h =
    let own : is_id id p.id ≡ false = ground arith in
    let rest : has_id packages id ≡ false = ground (arith, has_id) in
    (is_id_complete id p.id own, unlisted packages id rest)

-- The package has the spec as its id; or no package has, and it is the only one that has the name and,
-- if the spec has one, a version that begins with the spec's.
abbrev pub IsNamedBy : String → List Package → String → Type 0
IsNamedBy spec packages id =
    ((id ≡ spec) × IsListed packages id)
    ⊎ (All (λ p. p.id ≢ some spec) packages
        × ((name : String) × (required : Option String) × Reads spec name required
            × IsOnly name required packages id))

only_one-ok : (ids : List String) (id : String) → only_one ids ≡ ok id → ids ≡ id ∷ []
only_one-ok [] id h = absurd cc
only_one-ok (i ∷ []) id h = ap (λ x. x ∷ []) (cc h)
only_one-ok (i ∷ j ∷ ids) id h = absurd cc

resolved-IsNamedBy :
    (spec : String) (packages : List Package) (id : String)
    → resolve_package_spec spec packages ≡ ok id
    → IsNamedBy spec packages id
unfolding resolve_package_spec
resolved-IsNamedBy spec packages id h =
    let n = name_and_version spec in
    elim (Bool-cases (has_id packages spec)) [
      | inl d ↦
          let same : spec ≡ id = ground arith in
          inl (sym same, subst (IsListed packages) same (listed packages spec d))
      | inr d ↦
          let one = only_one-ok (matching (n.0) (n.1) packages) id (ground arith) in
          inr (
            unlisted packages spec d,
            (n.0, n.1, name-Reads spec, matching-IsOnly (n.0) (n.1) packages id one),
          )
    ]

-- The specs of a selection and its packages belong together.
abbrev pub Selects : List String → List Package → List String → Type 0
Selects specs packages ids =
    ((spec : String)
      → contains specs spec ≡ true
      → (id : String) × (contains ids id ≡ true) × IsNamedBy spec packages id)
    × ((id : String)
        → contains ids id ≡ true
        → (spec : String) × (contains specs spec ≡ true) × IsNamedBy spec packages id)

insert-Selects :
    (spec id : String) (specs ids : List String) (packages : List Package)
    → IsNamedBy spec packages id
    → Selects specs packages ids
    → Selects (spec ∷ specs) packages (insert ids id)
insert-Selects spec id specs ids packages named s = (
  λ t h. elim (contains-cons spec t specs h) [
    | inl e ↦ (id, insert-head ids id, subst (λ x. IsNamedBy x packages id) e named)
    | inr k ↦ let r = s.0 t k in (r.0, insert-tail ids id (r.0) r.1, r.2)
  ],
  λ i h. elim (contains-insert ids id i h) [
    | inl e ↦ (spec, contains-head spec specs, subst (λ x. IsNamedBy spec packages x) e named)
    | inr k ↦ let r = s.1 i k in (r.0, contains-tail spec (r.0) specs r.1, r.2)
  ],
)

all-Selects :
    (specs : List String) (packages : List Package) (ids : List String)
    → resolve_all specs packages ≡ some ids
    → Selects specs packages ids
unfolding resolve_all
all-Selects [] packages ids h =
    let empty : [] ≡ ids = cc h in
    subst (Selects [] packages) empty (λ t k. contains-none t k, λ i k. contains-none i k)
all-Selects (spec ∷ specs) packages ids h =
    elim (Result-cases (resolve_package_spec spec packages)) [
      | inl e ↦ let q = e.1 in absurd (ground arith)
      | inr r ↦
          let q = r.1 in
          elim (Option-cases (resolve_all specs packages)) [
            | inl n ↦ absurd (ground arith)
            | inr more ↦
                let p = more.1 in
                let same : insert (more.0) (r.0) ≡ ids = ground arith in
                subst (Selects (spec ∷ specs) packages) same (
                  insert-Selects spec (r.0) specs (more.0) packages
                    (resolved-IsNamedBy spec packages (r.0) r.1)
                    (all-Selects specs packages (more.0) more.1))
          ]
    ]

-- Where the selection of a command is resolved, each spec stands for one of the selected packages and
-- each selected package for one of the specs. It is a package of the metadata that has the spec as its
-- id; or no package has that, and it is the only one with the name that the spec gives, a dash counting
-- as an underscore, and, if the spec gives one behind `:` or else `@`, a version that begins with it.
pub selected_named :
    (specs : List String) (packages : List Package) (ids : List String)
    → selected_ids specs (some packages) ≡ some ids
    → Selects specs packages ids
unfolding selected_ids
selected_named [] packages ids h = absurd cc
selected_named (spec ∷ specs) packages ids h = all-Selects (spec ∷ specs) packages ids h

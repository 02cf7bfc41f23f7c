-- ===== src/Driver/Controls.antt =====
-- The arguments that reach the compiler.
use rust_compile_time_instru.Prelude.{
  String, ◌≡◌, refl, ap, ◌≢◌, ◌⊎◌, inl, inr, true, false, Option, none, some, List, [], ◌∷◌, ◌++◌,
  arith, eq_iff, str_eq, Bool-cases, any, All,
}
use rust_compile_time_instru.Text.{starts_with}
use rust_compile_time_instru.Strips.{Strips, done, kept, with_value, without_value, joined}
use rust_compile_time_instru.Driver.{
  drop_controls, normalize_lint_controls, is_control, is_joined_control, compiler_args,
  with_sysroot, without_compiler,
}

abbrev pub ControlsLints : String → Type 0
ControlsLints a = (a ≡ "--cap-lints") ⊎ (a ≡ "--force-warn")

abbrev pub ControlsLintsJoined : String → Type 0
ControlsLintsJoined a =
    (starts_with a "--cap-lints=" ≡ true) ⊎ (starts_with a "--force-warn=" ≡ true)

control_sound : (a : String) → is_control a ≡ true → ControlsLints a
control_sound a h =
    let e = (eq_iff a "--cap-lints").0 in let f = (eq_iff a "--force-warn").0 in ground arith

control_complete : (a : String) → is_control a ≡ false → ControlsLints a → ⊥
control_complete a h c =
    let e = (eq_iff a "--cap-lints").1 in let f = (eq_iff a "--force-warn").1 in ground arith

joined_sound : (a : String) → is_joined_control a ≡ true → ControlsLintsJoined a
joined_sound a h = ground arith

joined_complete : (a : String) → is_joined_control a ≡ false → ControlsLintsJoined a → ⊥
joined_complete a h c = ground arith

mutual
  unfolding drop_controls

  controls-Strips :
      (args : List String)
      → Strips ControlsLints ControlsLintsJoined args (drop_controls false args)
  controls-Strips [] = done
  controls-Strips (a ∷ args) = elim (Bool-cases (is_control a)) [
    | inl e ↦ rw e (value-Strips a args (control_sound a e))
    | inr n ↦
        let rest = controls-Strips args in
        elim (Bool-cases (is_joined_control a)) [
          | inl j ↦ rw (n, j) (joined a args _ (joined_sound a j) rest)
          | inr k ↦ rw (n, k) (kept a args _ (control_complete a n) (joined_complete a k) rest)
        ]
  ]

  value-Strips :
      (a : String) (args : List String)
      → ControlsLints a
      → Strips ControlsLints ControlsLintsJoined (a ∷ args) (drop_controls true args)
  value-Strips a [] c = without_value a c
  value-Strips a (value ∷ args) c = with_value a value args _ c (controls-Strips args)

-- The arguments without the compiler's path, which Cargo passes behind the program's.
abbrev pub DropsCompiler : (String → String) → List String → List String → Type 0
DropsCompiler file_stem (program ∷ first ∷ args) t =
    ((file_stem first ≡ "rustc") × (t ≡ program ∷ args))
    ⊎ ((file_stem first ≢ "rustc") × (t ≡ program ∷ first ∷ args))
DropsCompiler file_stem args t = t ≡ args

-- The arguments with a sysroot that is known, if they have none.
abbrev pub AddsSysroot : Option String → List String → List String → Type 0
AddsSysroot none args t = t ≡ args
AddsSysroot (some dir) args t =
    (All (λ a. a ≢ "--sysroot") args × (t ≡ args ++ "--sysroot" ∷ dir ∷ []))
    ⊎ ((before : List String) × (after : List String) × (args ≡ before ++ "--sysroot" ∷ after)
        × (t ≡ args))

drops :
    (file_stem : String → String) (args : List String)
    → DropsCompiler file_stem args (without_compiler file_stem args)
drops file_stem [] = refl
drops file_stem (program ∷ []) = refl
drops file_stem (program ∷ first ∷ args) = elim (Bool-cases (str_eq (file_stem first) "rustc")) [
  | inl e ↦ rw e (inl ((eq_iff (file_stem first) "rustc").0 e, refl))
  | inr n ↦ rw n (inr ((λ q. cc (n, (eq_iff (file_stem first) "rustc").1 q)), refl))
]

no_sysroot :
    (args : List String)
    → any (λ a. str_eq a "--sysroot") args ≡ false
    → All (λ a. a ≢ "--sysroot") args
no_sysroot [] h = tt
no_sysroot (a ∷ args) h = elim (Bool-cases (str_eq a "--sysroot")) [
  | inl e ↦ absurd (ground arith)
  | inr n ↦ ((λ q. cc (n, (eq_iff a "--sysroot").1 q)), no_sysroot args (ground arith))
]

some_sysroot :
    (args : List String)
    → any (λ a. str_eq a "--sysroot") args ≡ true
    → (before : List String) × (after : List String) × (args ≡ before ++ "--sysroot" ∷ after)
some_sysroot [] h = absurd cc
some_sysroot (a ∷ args) h = elim (Bool-cases (str_eq a "--sysroot")) [
  | inl e ↦ ([], args, ap (λ x. x ∷ args) ((eq_iff a "--sysroot").0 e))
  | inr n ↦
      let rest = some_sysroot args (ground arith) in (a ∷ rest.0, rest.1, ap (λ l. a ∷ l) rest.2)
]

adds :
    (sysroot : Option String) (args : List String)
    → AddsSysroot sysroot args (with_sysroot sysroot args)
adds none args = refl
adds (some dir) args = elim (Bool-cases (any (λ a. str_eq a "--sysroot") args)) [
  | inl e ↦ let s = some_sysroot args e in rw e (inr (s.0, s.1, s.2, refl))
  | inr n ↦ rw n (inl (no_sysroot args n, refl))
]

-- What the compiler gets, step by step.
abbrev pub Replaces : (String → String) → Option String → List String → List String → Type 0
Replaces file_stem sysroot args handed =
    (own : List String) × (rooted : List String) × (rest : List String) × DropsCompiler file_stem
      args own
    × AddsSysroot sysroot own rooted
    × Strips ControlsLints ControlsLintsJoined rooted rest
    × (handed ≡ rest ++ "--cap-lints=allow" ∷ "--force-warn=cargo_instrument_instrument" ∷ [])

-- The compiler gets the arguments without its own path, with the sysroot if it is known and they have
-- none, without any lint cap or forced warning, be it joined with its value or followed by it, and with
-- the driver's own two controls at the end. All else is handed on, in order.
pub controls_replaced :
    (file_stem : String → String) (sysroot : Option String) (args : List String)
    → Replaces file_stem sysroot args (compiler_args file_stem sysroot args)
unfolding compiler_args normalize_lint_controls
controls_replaced file_stem sysroot args =
    let own = without_compiler file_stem args in
    (
      own,
      with_sysroot sysroot own,
      _,
      drops file_stem args,
      adds sysroot own,
      controls-Strips (with_sysroot sysroot own),
      refl,
    )

-- ===== src/Wrapper/Runs.antt =====
-- What rustc is run with under the wrapper, and what the wrapper leaves behind.
use rust_compile_time_instru.Prelude.{
  String, ◌≡◌, refl, ap, ◌∙◌, ◌⊎◌, inl, inr, true, Option, none, some, List, [], arith, Bool-cases,
  Option-cases, ok, err, Result-cases,
}
use rust_compile_time_instru.Discovery.{out_dir, has_opentelemetry}
use rust_compile_time_instru.Wrapper.{WrapperConfig, Environment, resolve}
use rust_compile_time_instru.Wrapper.Choice.{r4_native_otel_rlib}
use rust_compile_time_instru.Wrapper.Mirror.{MirroredCrateInfo, MirrorError, render}
use rust_compile_time_instru.Wrapper.Run.{
  ExitStatus, success, Machine, Prepared, is_root_arg, replace_root, inject_extern, with_out_dir,
  mirrored, request, written, Ran, stamps_of, finish, run_wrapper,
}
use rust_compile_time_instru.Wrapper.Prepared.{IsPrepared, prepare_cases}

module _ (env : Environment) (m : Machine) where
  -- What the arguments are with `opentelemetry` bound.
  abbrev pub injected : (args : List String) (p : Prepared) → IsPrepared env m args p → List String
  injected args p i =
      inject_extern (r4_native_otel_rlib m.files i.plan (resolve env i.source) args)
        (has_opentelemetry i.invocation.unit) args

  -- Either mirroring has failed, or rustc has compiled the mirror; stamps are those of the mirror, and
  -- only there if rustc has succeeded.
  abbrev pub Effect :
      (config : WrapperConfig) (p : Prepared) → IsPrepared env m config.rustc_args p → Ran → Type 0
  Effect config p i ran =
      ((error : MirrorError) × (m.mirror
            (request env m i.invocation.unit i.name i.source i.report i.emitter)
          ≡ err error)
        × (ran.args ≡ injected config.rustc_args p i)
        × (ran.stamps ≡ []))
      ⊎ ((info : MirroredCrateInfo) × (m.mirror
              (request env m i.invocation.unit i.name i.source i.report i.emitter)
            ≡ ok info)
          × (ran.args
              ≡ replace_root (is_root_arg m.files i.source (resolve env i.source))
                  (render info.new_root) (injected config.rustc_args p i))
          × ((ran.stamps ≡ [])
              ⊎ ((out : String) × (status : ExitStatus) × (out_dir i.invocation.unit ≡ some out)
                  × (m.rustc config.rustc_binary ran.args ≡ some status)
                  × (success status ≡ true)
                  × (ran.stamps ≡ stamps_of info (resolve env out)))))

  finish_args : (config : WrapperConfig) (p : Prepared) → (finish m config p).args ≡ p.args_to_run
  unfolding finish
  finish_args config p = ground arith

  finish_stamps :
      (config : WrapperConfig) (p : Prepared)
      → ((finish m config p).stamps ≡ [])
        ⊎ ((status : ExitStatus) × (m.rustc config.rustc_binary (finish m config p).args
              ≡ some status)
            × (success status ≡ true)
            × ((finish m config p).stamps ≡ written p.mirrored_info))
  unfolding finish
  finish_stamps config p = elim (Option-cases (m.rustc config.rustc_binary p.args_to_run)) [
    | inl n ↦ inl (ground arith)
    | inr s ↦
        let q = s.1 in
        elim (Bool-cases (success (s.0))) [
          | inl y ↦ inr (s.0, ground arith, y, ground arith)
          | inr y ↦ inl (ground arith)
        ]
  ]

  -- The stamps are those of the mirror, where there is an output directory.
  written_cases :
      (info : MirroredCrateInfo) (out : Option String)
      → (written (with_out_dir env info out) ≡ [])
        ⊎ ((dir : String) × (out ≡ some dir)
            × (written (with_out_dir env info out) ≡ stamps_of info (resolve env dir)))
  written_cases info none = inl refl
  written_cases info (some dir) = inr (dir, refl, refl)

  finish-Effect :
      (config : WrapperConfig) (p : Prepared) (i : IsPrepared env m config.rustc_args p)
      → Effect config p i (finish m config p)
  unfolding mirrored
  finish-Effect config p i =
      let args = finish_args config p in
      let stamps = finish_stamps config p in
      let e = i.as_chosen in
      elim (Result-cases
        (m.mirror (request env m i.invocation.unit i.name i.source i.report i.emitter))) [
          | inl f ↦
              let q = f.1 in
              let a : p.args_to_run ≡ injected config.rustc_args p i =
                ap (λ x. x.args_to_run) e ∙ rw (mirrored, q) refl in
              let b : p.mirrored_info ≡ none =
                ap (λ x. x.mirrored_info) e ∙ rw (mirrored, q) refl in
              inl (f.0, f.1, args ∙ a, elim stamps [ inl k ↦ k | inr k ↦ k.3 ∙ ap written b ])
          | inr f ↦
              let q = f.1 in
              let a : p.args_to_run
                  ≡ replace_root (is_root_arg m.files i.source (resolve env i.source))
                      (render (f.0).new_root) (injected config.rustc_args p i) =
                ap (λ x. x.args_to_run) e ∙ rw (mirrored, q) refl in
              let b : p.mirrored_info ≡ with_out_dir env (f.0) (out_dir i.invocation.unit) =
                ap (λ x. x.mirrored_info) e ∙ rw (mirrored, q) refl in
              inr (
                f.0,
                f.1,
                args ∙ a,
                elim stamps [
                  | inl k ↦ inl k
                  | inr k ↦ elim (written_cases (f.0) (out_dir i.invocation.unit)) [
                    | inl w ↦ inl ((k.3 ∙ ap written b) ∙ w)
                    | inr w ↦ inr (w.0, k.0, w.1, k.1, k.2, (k.3 ∙ ap written b) ∙ w.2)
                  ]
                ],
              )
        ]

  -- A run of the wrapper that changes nothing, or one with the effect of a choice.
  abbrev pub Runs : WrapperConfig → Type 0
  Runs config =
      (ran : Ran) × (run_wrapper env m config ≡ some ran)
      × ((ran.args ≡ config.rustc_args) × (ran.stamps ≡ [])
          ⊎ (p : Prepared) × (i : IsPrepared env m config.rustc_args p) × Effect config p i ran)

  pub run_sound : (config : WrapperConfig) → Runs config
  unfolding run_wrapper
  run_sound config =
      let p = prepare_cases env m config.rustc_args in
      let e = p.1 in
      (
        finish m config (p.0),
        rw (run_wrapper, e) refl,
        elim p.2 [
          | inl u ↦ inl (
            finish_args config (p.0) ∙ ap (λ x. x.args_to_run) u,
            elim (finish_stamps config (p.0)) [
              | inl k ↦ k
              | inr k ↦ k.3 ∙ ap (λ x. written x.mirrored_info) u
            ],
          )
          | inr i ↦ inr (p.0, i, finish-Effect config (p.0) i)
        ],
      )

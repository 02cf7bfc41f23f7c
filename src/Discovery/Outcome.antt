-- ===== src/Discovery/Outcome.antt =====
-- What `CrateInvocation::parse` takes for a crate that is analysed.
use rust_compile_time_instru.Prelude.{
  String, ◌≡◌, sym, ◌∙◌, subst, ◌≢◌, inl, inr, Bool, true, false, Option, none, some, List, [], ◌∷◌,
  arith, eq_iff, str_eq, Bool-cases, Option-cases, any, ok,
}
use rust_compile_time_instru.Text.{strip_prefix, starts_with, ends_with}
use rust_compile_time_instru.Discovery.Scan.{
  Scanned, nothing_scanned, note_extern, note_codegen, or_same, step_rest, step_codegen,
  step_extern, step, head, scan,
}
use rust_compile_time_instru.Discovery.{
  CrateInvocation, RustCrate, rust_crate, build_script, proc_macro, parse, classify, classify_scan,
  file_name, is_build_script, resolved_crate_name, ordinary_crate, filter, is_query_flag,
}

-- The source file that the scan has found, if any, is a Rust file.
abbrev IsSourced : Scanned → Type 0
IsSourced s = (p : String) → s.positional_source ≡ some p → ends_with p ".rs" ≡ true

extern-source :
    (spec : String) (s : Scanned) → (note_extern spec s).positional_source ≡ s.positional_source
unfolding note_extern
extern-source spec s = ground arith

codegen-source :
    (option : String) (s : Scanned)
    → (or_same (note_codegen option s) s).positional_source ≡ s.positional_source
unfolding note_codegen
codegen-source option s = ground arith

module _ (s : Scanned) (sourced : IsSourced s) where
  same_source : (t : Scanned) → t.positional_source ≡ s.positional_source → IsSourced t
  same_source t e p h = sourced p (sym e ∙ h)

  rest-IsSourced : (arg : String) → IsSourced ((step_rest arg s).0)
  unfolding step_rest
  rest-IsSourced arg p h = let q = sourced p in ground arith

  codegen-IsSourced :
      (arg : String) (next : Option String) → IsSourced ((step_codegen arg next s).0)
  unfolding step_codegen
  codegen-IsSourced arg none p h =
      let r = rest-IsSourced arg p in
      let q = sourced p in
      elim (Option-cases (strip_prefix arg "-C")) [
        | inl n ↦ ground arith
        | inr o ↦ let c = codegen-source (o.0) s in ground arith
      ]
  codegen-IsSourced arg (some option) p h =
      let r = rest-IsSourced arg p in
      let q = sourced p in
      let d = codegen-source option s in
      elim (Option-cases (strip_prefix arg "-C")) [
        | inl n ↦ ground arith
        | inr o ↦ let c = codegen-source (o.0) s in ground arith
      ]

  extern-IsSourced : (arg : String) (next : Option String) → IsSourced ((step_extern arg next s).0)
  unfolding step_extern
  extern-IsSourced arg none p h =
      let r = codegen-IsSourced arg none p in
      let q = sourced p in
      elim (Option-cases (strip_prefix arg "--extern=")) [
        | inl n ↦ ground arith
        | inr o ↦ let c = extern-source (o.0) s in ground arith
      ]
  extern-IsSourced arg (some spec) p h =
      let r = codegen-IsSourced arg (some spec) p in
      let q = sourced p in
      let d = extern-source spec s in
      elim (Option-cases (strip_prefix arg "--extern=")) [
        | inl n ↦ ground arith
        | inr o ↦ let c = extern-source (o.0) s in ground arith
      ]

  step-IsSourced : (arg : String) (next : Option String) → IsSourced ((step arg next s).0)
  unfolding step
  step-IsSourced arg next p h =
      let q = sourced p in let e = extern-IsSourced arg next p in ground arith

scan-IsSourced :
    (skip : Bool) (args : List String) (s : Scanned) → IsSourced s → IsSourced (scan skip args s)
unfolding scan
scan-IsSourced true [] s k = k
scan-IsSourced false [] s k = k
scan-IsSourced true (a ∷ args) s k = scan-IsSourced false args s k
scan-IsSourced false (a ∷ args) s k = scan-IsSourced _ args _ (step-IsSourced s k a (head args))

-- What makes a crate one that is analysed.
pub record IsOrdinary (c : RustCrate) : Type 0 where
  pub rust_source : ends_with c.source_file ".rs" ≡ true
  pub not_proc_macro : any (λ t. str_eq t "proc-macro") c.crate_types ≡ false
  pub not_build_name : starts_with c.crate_name "build_script_" ≡ false
  pub not_build_file : file_name c.source_file ≢ "build.rs"

classify_inversion :
    (s : Scanned) (source : String) (c : RustCrate)
    → classify s source ≡ rust_crate c
    → (any (λ t. str_eq t "proc-macro") s.crate_types ≡ false)
      × (is_build_script (resolved_crate_name s source) source ≡ false)
      × (ordinary_crate (resolved_crate_name s source) s source ≡ c)
unfolding classify
classify_inversion s source c h =
    elim (Bool-cases (any (λ t. str_eq t "proc-macro") s.crate_types)) [
      | inl a ↦ absurd (
          let bad : proc_macro (resolved_crate_name s source) source ≡ rust_crate c = rw a at h in
          cc)
      | inr a ↦ elim (Bool-cases (is_build_script (resolved_crate_name s source) source)) [
        | inl b ↦ absurd (
            let bad : build_script (resolved_crate_name s source) source ≡ rust_crate c =
              rw (a, b) at h in
            cc)
        | inr b ↦
            let e : rust_crate (ordinary_crate (resolved_crate_name s source) s source)
                ≡ rust_crate c =
              rw (a, b) at h in
            (a, b, cc)
      ]
    ]

build_script_inversion :
    (name source : String)
    → is_build_script name source ≡ false
    → (starts_with name "build_script_" ≡ false) × (str_eq (file_name source) "build.rs" ≡ false)
unfolding is_build_script
build_script_inversion name source h = ground arith

IsOrdinary-of :
    (s : Scanned) (source : String)
    → ends_with source ".rs" ≡ true
    → any (λ t. str_eq t "proc-macro") s.crate_types ≡ false
    → is_build_script (resolved_crate_name s source) source ≡ false
    → IsOrdinary (ordinary_crate (resolved_crate_name s source) s source)
unfolding ordinary_crate
IsOrdinary-of s source e a b =
    let i = build_script_inversion (resolved_crate_name s source) source b in
    record {
      rust_source = e;
      not_proc_macro = a;
      not_build_name = i.0;
      not_build_file = λ h. cc (i.1, (eq_iff (file_name source) "build.rs").1 h);
    }

classify-IsOrdinary :
    (s : Scanned) (source : String) (c : RustCrate)
    → ends_with source ".rs" ≡ true
    → classify s source ≡ rust_crate c
    → IsOrdinary c
classify-IsOrdinary s source c e h =
    let i = classify_inversion s source c h in
    subst IsOrdinary (i.2) (IsOrdinary-of s source e i.0 i.1)

scan-IsOrdinary :
    (queries : List String) (s : Scanned) (c : RustCrate)
    → IsSourced s
    → classify_scan queries s ≡ rust_crate c
    → IsOrdinary c
unfolding classify_scan
scan-IsOrdinary queries s c k h = elim (Option-cases s.positional_source) [
  | inl n ↦ absurd (ground arith)
  | inr p ↦
      let e : classify s (p.0) ≡ rust_crate c = ground arith in
      classify-IsOrdinary s (p.0) c (k (p.0) p.1) e
]

-- A unit that is analysed, for it is a Rust crate, has a Rust source file that is not `build.rs`,
-- is no procedural macro and has not the name of a build script.
pub parse-IsOrdinary :
    (args : List String) (i : CrateInvocation) (c : RustCrate)
    → parse args ≡ ok i
    → i.unit ≡ rust_crate c
    → IsOrdinary c
unfolding parse
parse-IsOrdinary [] i c h u = cc
parse-IsOrdinary (a ∷ args) i c h u =
    let k = scan-IsSourced false (a ∷ args) nothing_scanned (λ p e. absurd cc) in
    scan-IsOrdinary (filter is_query_flag (a ∷ args)) (scan false (a ∷ args) nothing_scanned) c k
      (ground arith)

-- ===== src/Transform/Emit/Trampoline.antt =====
-- `TrampolineEmitter` of cargo-instrument/src/transform.rs. The file system and the `{:?}` format of
-- a text are parameters.
use Prim.Native.Nat.{◌/◌, ◌%◌}
use rust_compile_time_instru.Prelude.{
  ℕ, zero, suc, ◌+◌, String, Bool, true, false, Option, none, some, List, [], ◌∷◌, ltb, ◌==◌,
  if◌then◌else◌, str_eq,
}
use rust_compile_time_instru.Bytes.{Bytes, slice}
use rust_compile_time_instru.Bytes.Replace.{replace}
use rust_compile_time_instru.Candidate.{Candidate, UnsafePolicy, denied}
use rust_compile_time_instru.Transform.{Emitter}
use rust_compile_time_instru.Transform.Emit.{lit, format, anchor_line}
use rust_compile_time_instru.Transform.Emit.Native.{wraps_result}

pub record TrampolineEmitter : Type 0 where
  pub crate_name : Bytes
  pub edition : Option String
  pub unsafe_policy : UnsafePolicy
  pub metadata_v2 : Bool

unfoldable pub with_metadata : TrampolineEmitter → Bool → TrampolineEmitter
with_metadata self enabled = record self { metadata_v2 = enabled }

unfoldable pub new : Bytes → Option String → UnsafePolicy → TrampolineEmitter
new crate_name edition unsafe_policy = record {
  crate_name = crate_name;
  edition = edition;
  unsafe_policy = unsafe_policy;
  metadata_v2 = false;
}

abbrev is_denied : UnsafePolicy → Bool
is_denied denied = true
is_denied _ = false

abbrev is_2024 : Option String → Bool
is_2024 none = false
is_2024 (some edition) = str_eq edition "2024"

extern_kw : TrampolineEmitter → Bytes
extern_kw self =
    if is_2024 self.edition then lit "unsafe extern \"C-unwind\"" else lit "extern \"C-unwind\""

allow_unsafe : TrampolineEmitter → Bytes → Bytes
allow_unsafe self nl =
    if is_denied self.unsafe_policy then format (nl ∷ lit "    #[allow(unsafe_code)]" ∷ []) else []

allow_unsafe_in_drop : TrampolineEmitter → Bytes → Bytes
allow_unsafe_in_drop self nl =
    if is_denied self.unsafe_policy
    then format (nl ∷ lit "                #[allow(unsafe_code)]" ∷ [])
    else []

-- The declaration of `__otel_span_enter` and `__otel_span_exit`.
declared_pieces : TrampolineEmitter → Bytes → List Bytes → List Bytes
declared_pieces self nl more =
    allow_unsafe self nl
    ∷ nl
    ∷ lit "    "
    ∷ extern_kw self
    ∷ lit " {"
    ∷ nl
    ∷ lit "        fn __otel_span_enter("
    ∷ nl
    ∷ lit "            name: *const u8,"
    ∷ nl
    ∷ lit "            name_len: usize,"
    ∷ nl
    ∷ lit "            file: *const u8,"
    ∷ nl
    ∷ lit "            file_len: usize,"
    ∷ nl
    ∷ lit "            line: u32,"
    ∷ nl
    ∷ lit "            kind: u8,"
    ∷ nl
    ∷ lit "        ) -> u64;"
    ∷ nl
    ∷ lit "        fn __otel_span_exit(handle: u64);"
    ∷ more

-- The guard's type, up to the names that the call is given.
guard_pieces : TrampolineEmitter → Bytes → Bytes → List Bytes → List Bytes
guard_pieces self name nl more =
    nl
    ∷ lit "    }"
    ∷ nl
    ∷ lit "    struct __OtelGuard(u64);"
    ∷ nl
    ∷ lit "    impl Drop for __OtelGuard {"
    ∷ nl
    ∷ lit "        fn drop(&mut self) {"
    ∷ nl
    ∷ lit "            if self.0 != 0 {"
    ∷ allow_unsafe_in_drop self nl
    ∷ nl
    ∷ lit "                unsafe {"
    ∷ nl
    ∷ lit "                    __otel_span_exit(self.0);"
    ∷ nl
    ∷ lit "                }"
    ∷ nl
    ∷ lit "            }"
    ∷ nl
    ∷ lit "        }"
    ∷ nl
    ∷ lit "    }"
    ∷ nl
    ∷ lit "    let __otel_name = \""
    ∷ name
    ∷ lit "\";"
    ∷ nl
    ∷ lit "    let __otel_file = file!();"
    ∷ allow_unsafe self nl
    ∷ more

-- The call's arguments.
call_pieces : Bytes → List Bytes → List Bytes
call_pieces nl more =
    nl
    ∷ lit "        __otel_span_enter("
    ∷ nl
    ∷ lit "            __otel_name.as_ptr(),"
    ∷ nl
    ∷ lit "            __otel_name.len(),"
    ∷ nl
    ∷ lit "            __otel_file.as_ptr(),"
    ∷ nl
    ∷ lit "            __otel_file.len(),"
    ∷ nl
    ∷ lit "            line!(),"
    ∷ nl
    ∷ lit "            0u8,"
    ∷ nl
    ∷ lit "        )"
    ∷ more

-- Everything behind the anchor line, in its two forms.
unfoldable pub generated_pieces : TrampolineEmitter → Candidate → Bytes → List Bytes
unfolding declared_pieces guard_pieces call_pieces extern_kw allow_unsafe allow_unsafe_in_drop
generated_pieces self c nl =
    if wraps_result c
    then declared_pieces self nl (
        nl
        ∷ lit "        fn __otel_span_set_error(handle: u64);"
        ∷ guard_pieces self c.function_name nl (
            nl
            ∷ lit "    let __otel_guard = __OtelGuard(unsafe {"
            ∷ call_pieces nl (
                nl
                ∷ lit "    });"
                ∷ nl
                ∷ lit "    #[allow(clippy::redundant_closure_call)]"
                ∷ nl
                ∷ lit "    let __otel_res: core::result::Result<_, _> = (|| {"
                ∷ [])))
    else declared_pieces self nl (
        guard_pieces self c.function_name nl (
          nl
          ∷ lit "    let _otel_guard = __OtelGuard(unsafe {"
          ∷ call_pieces nl (nl ∷ lit "    });" ∷ [])))

unfoldable pub generated : TrampolineEmitter → Candidate → Bytes → Bytes
generated self c nl = format (anchor_line nl c.function_name (generated_pieces self c nl))

-- The decimal digits of a line number; `fuel` bounds the number of digits.
digits : ℕ → ℕ → Bytes → Bytes
digits zero n out = out
digits (suc fuel) n out =
    let more = digits fuel (n / 10) ((b'0' + n % 10) ∷ out) in
    if ltb n 10 then (b'0' + n) ∷ out else more

unfoldable pub decimal : ℕ → Bytes
unfolding digits
decimal n = digits (suc n) n []

count_newlines : Bytes → ℕ
count_newlines [] = 0
count_newlines (b ∷ s) = (if b == 10 then 1 else 0) + count_newlines s

module _ (read_to_string : Bytes → Option Bytes) (debug : Bytes → Bytes) where
  -- The line of the candidate in the file on disk, or 0 where it cannot be read.
  line_of : Candidate → ℕ
  unfolding count_newlines
  line_of c = elim (read_to_string c.source_file) [
    | none ↦ 0
    | some source ↦ elim (slice source 0 c.byte_range.start) [
      | none ↦ 0
      | some prefix ↦ count_newlines prefix + 1
    ]
  ]

  -- The rewriting of the generated text for the versioned symbol.
  with_scope : TrampolineEmitter → Candidate → Bytes → Bytes → Bytes
  with_scope self c nl text =
      let scope = debug self.crate_name in
      let file = debug c.source_file in
      let entered = replace (lit "__otel_span_enter(") (lit "__otel_span_enter_v2(") text in
      let scoped =
        replace (lit "name: *const u8,")
          (format (
            lit "scope: *const u8, scope_len: usize,"
            ∷ nl
            ∷ lit "            name: *const u8,"
            ∷ []))
          entered in
      let passed =
        replace (lit "__otel_name.as_ptr(),")
          (format (
            scope
            ∷ lit ".as_ptr(), "
            ∷ scope
            ∷ lit ".len(),"
            ∷ nl
            ∷ lit "            __otel_name.as_ptr(),"
            ∷ []))
          scoped in
      let filed =
        replace (lit "let __otel_file = file!();")
          (format (lit "let __otel_file = " ∷ file ∷ lit ";" ∷ [])) passed in
      replace (lit "line!(),") (format (decimal (line_of c) ∷ lit "u32," ∷ [])) filed

  unfoldable pub emit_body_prefix : TrampolineEmitter → Candidate → Bytes → Bytes
  unfolding with_scope line_of
  emit_body_prefix self c nl =
      if self.metadata_v2 then with_scope self c nl (generated self c nl) else generated self c nl

allow_unsafe_in_suffix : TrampolineEmitter → Bytes → Bytes
allow_unsafe_in_suffix self nl =
    if is_denied self.unsafe_policy
    then format (nl ∷ lit "        #[allow(unsafe_code)]" ∷ [])
    else []

unfoldable pub emit_body_suffix : TrampolineEmitter → Candidate → Bytes → Bytes
unfolding allow_unsafe_in_suffix
emit_body_suffix self c nl =
    if wraps_result c
    then format (
        nl
        ∷ lit "    })();"
        ∷ nl
        ∷ lit "    if __otel_res.is_err() && __otel_guard.0 != 0 {"
        ∷ allow_unsafe_in_suffix self nl
        ∷ nl
        ∷ lit "        unsafe {"
        ∷ nl
        ∷ lit "            __otel_span_set_error(__otel_guard.0);"
        ∷ nl
        ∷ lit "        }"
        ∷ nl
        ∷ lit "    }"
        ∷ nl
        ∷ lit "    __otel_res"
        ∷ nl
        ∷ [])
    else []

abbrev pub trampoline_emitter :
    (Bytes → Option Bytes) → (Bytes → Bytes) → TrampolineEmitter → Emitter
trampoline_emitter read_to_string debug self = record {
  emit_body_prefix = emit_body_prefix read_to_string debug self;
  emit_body_suffix = emit_body_suffix self;
  handles_async = false;
  handles_tokio_spawn = false;
}

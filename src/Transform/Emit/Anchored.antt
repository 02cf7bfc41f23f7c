-- ===== src/Transform/Emit/Anchored.antt =====
-- A body that an emitter has written into is recognised, and is not instrumented again.
use rust_compile_time_instru.Prelude.{
  ℕ, suc, ◌+◌, ◌<◌, ◌≡◌, refl, sym, ap, ◌∙◌, ◌≢◌, ◌⊎◌, inl, inr, true, Option, some, List, [], ◌∷◌,
  ◌++◌, append_assoc, arith, length, length-append,
}
use rust_compile_time_instru.Bytes.{Bytes, slice, contains, strip_prefix, trim_start, codes}
use rust_compile_time_instru.Bytes.Slices.{slice_to_end, contains_middle, drop_past, boundary_past}
use rust_compile_time_instru.Candidate.{Candidate, Range}
use rust_compile_time_instru.Transform.{Emitter, ByteEdit, instrument_anchor_prefix}
use rust_compile_time_instru.Transform.Build.{
  judge, accept, body_starts_with_anchor_sentinel, lf, crlf,
}
use rust_compile_time_instru.Transform.Build.Order.{judge-unanchored}
use rust_compile_time_instru.Transform.Emit.{format, anchor_line, sentinel_prefix}
use rust_compile_time_instru.Transform.Emit.Native
use rust_compile_time_instru.Transform.Emit.Trampoline
use rust_compile_time_instru.Transform.Emit.Boxed.{
  BoxedEmitter, sentinel, native, trampoline, dispatch, IsUnversioned,
}

abbrev pub IsLineEnding : Bytes → Type 0
IsLineEnding nl = (nl ≡ lf) ⊎ (nl ≡ crlf)

-- The head of the text is the line ending and the anchor line.
abbrev pub IsAnchored : Bytes → Bytes → Bytes → Type 0
IsAnchored nl name text =
    (more : Bytes) × (text
      ≡ nl
        ++ (codes "    /* __cargo_instrument_anchor:"
            ++ ((codes " \"" ++ name ++ codes "\" ") ++ (codes "*/" ++ more))))

anchor_line-IsAnchored :
    (nl name : Bytes) (more : List Bytes) → IsAnchored nl name (format (anchor_line nl name more))
anchor_line-IsAnchored nl name more = (
  format more,
  ap (λ t. nl ++ (codes "    /* __cargo_instrument_anchor: \"" ++ t))
      (sym (append_assoc name (codes "\" ") (codes "*/" ++ format more))),
)

module _ (read_to_string : Bytes → Option Bytes) (debug : Bytes → Bytes) where
  emitters-IsAnchored :
      (e : BoxedEmitter) (c : Candidate) (nl : Bytes)
      → IsUnversioned e
      → IsAnchored nl c.function_name ((dispatch read_to_string debug e).emit_body_prefix c nl)
  unfolding sentinel_prefix Native.emit_body_prefix Trampoline.emit_body_prefix Trampoline.generated
  emitters-IsAnchored sentinel c nl u =
      anchor_line-IsAnchored nl c.function_name
        (nl ∷ codes "    let _cargo_instrument_sentinel = ();" ∷ [])
  emitters-IsAnchored (native self) c nl u =
      anchor_line-IsAnchored nl c.function_name (Native.prefix_pieces self c nl)
  emitters-IsAnchored (trampoline self) c nl u =
      simp u (anchor_line-IsAnchored nl c.function_name (Trampoline.generated_pieces self c nl))

-- What follows the opening brace, behind white space, is the anchor comment.
trimmed :
    (nl middle : Bytes) (more : Bytes)
    → IsLineEnding nl
    → strip_prefix
        (trim_start (nl ++ (codes "    /* __cargo_instrument_anchor:" ++ (middle ++ more))))
        (codes "/* __cargo_instrument_anchor:")
      ≡ some (middle ++ more)
unfolding trim_start strip_prefix
trimmed nl middle more (inl e) = rw e
trimmed nl middle more (inr e) = rw e

detect_at :
    (pre : Bytes) (h : ℕ) (t r : Bytes)
    → h < 128
    → strip_prefix (trim_start (h ∷ t)) instrument_anchor_prefix ≡ some r
    → contains r (codes "*/") ≡ true
    → body_starts_with_anchor_sentinel (pre ++ b'{' ∷ h ∷ t) (length pre) ≡ true
unfolding body_starts_with_anchor_sentinel
detect_at pre h t r ascii found closed =
    let source = pre ++ b'{' ∷ h ∷ t in
    let next : length pre + 1 ≡ suc (length pre) = omega arith in
    let size = length-append pre (b'{' ∷ h ∷ t) in
    let inner : slice source (length pre + 1) (length source) ≡ some (h ∷ t) =
      ap (λ n. slice source n (length source)) next
      ∙ slice_to_end source (suc (length pre)) (omega arith) (boundary_past pre b'{' h t ascii)
      ∙ ap some (drop_past pre b'{' (h ∷ t)) in
    ground (arith, inner, found, closed, size)

-- An emitted text behind the opening brace is detected.
detect_emitted :
    (pre nl name text rest : Bytes)
    → IsLineEnding nl
    → IsAnchored nl name text
    → body_starts_with_anchor_sentinel (pre ++ b'{' ∷ (text ++ rest)) (length pre) ≡ true
detect_emitted pre nl name text rest ending (more, form) = by_ending ending
  where
    middle : Bytes
    middle = codes " \"" ++ name ++ codes "\" "

    tail : Bytes
    tail = codes "*/" ++ (more ++ rest)

    spelled : text ++ rest ≡ nl ++ (codes "    /* __cargo_instrument_anchor:" ++ (middle ++ tail))
    spelled = rw form (simp append_assoc)

    by_ending :
        IsLineEnding nl
        → body_starts_with_anchor_sentinel (pre ++ b'{' ∷ (text ++ rest)) (length pre) ≡ true
    by_ending (inl e) =
        rw (spelled, e)
          (detect_at pre 10 _ (middle ++ tail) (omega arith) (trimmed lf middle tail (inl refl))
            (contains_middle middle (codes "*/") (more ++ rest)))
    by_ending (inr e) =
        rw (spelled, e)
          (detect_at pre 13 _ (middle ++ tail) (omega arith) (trimmed crlf middle tail (inr refl))
            (contains_middle middle (codes "*/") (more ++ rest)))

-- Code that an emitter has written behind a body's opening brace, under either line ending and
-- with unversioned runtime symbols, is never instrumented again: whatever emitter, range end and
-- neighbours a later pass has, it accepts no candidate whose body starts at that brace.
pub never_instrumented_again :
    (read_to_string : Bytes → Option Bytes) (debug : Bytes → Bytes) (e : BoxedEmitter)
    (written : Candidate) (nl pre rest : Bytes) (later : Emitter) (later_nl : Bytes)
    (prev : Option Range) (c : Candidate) (es : List ByteEdit)
    → IsUnversioned e
    → IsLineEnding nl
    → c.body_byte_range.start ≡ length pre
    → judge
        (pre ++ b'{' ∷ ((dispatch read_to_string debug e).emit_body_prefix written nl ++ rest))
        later
        later_nl
        prev
        c
      ≢ accept es
never_instrumented_again read_to_string debug e written nl pre rest later later_nl prev c es plain
      ending here h =
    let anchored = emitters-IsAnchored read_to_string debug e written nl plain in
    let detected =
      detect_emitted pre nl written.function_name
        ((dispatch read_to_string debug e).emit_body_prefix written nl) rest ending anchored in
    let fresh = judge-unanchored _ later later_nl prev c es h in cc (detected, rw here at fresh)

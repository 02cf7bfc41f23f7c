-- ===== src/Transform/Build/Order.antt =====
-- The bodies that the loop accepts do not overlap: its edits are already in the order of the source.
use rust_compile_time_instru.Prelude.{
  ℕ, ◌≤◌, ◌<◌, ◌≡◌, refl, ap, ◌∙◌, false, Option, none, some, List, [], ◌∷◌, ◌++◌, append-nil,
  arith, All,
}
use rust_compile_time_instru.Bytes.{Bytes}
use rust_compile_time_instru.Candidate.{Candidate, Range}
use rust_compile_time_instru.Transform.Sort.{
  sort, insert, Ascending, Ascending-append, Ascending-weaken,
}
use rust_compile_time_instru.Transform.{Emitter, ByteEdit}
use rust_compile_time_instru.Transform.Build.{
  Verdict, accept, skip, emit_edits, judge, plan_candidates, plan_edits, candidate_le, edit_le,
  body_starts_with_anchor_sentinel,
}
use rust_compile_time_instru.Transform.Build.Edits.{FitsIn, plan_candidates-FitsIn}
use rust_compile_time_instru.Transform.Build.Walk.{limit, Walk, no_spawn_edits}

abbrev pub start_of : ByteEdit → ℕ
start_of e = e.start

-- The edits lie between the two offsets, in ascending order.
abbrev LieIn : ℕ → ℕ → List ByteEdit → Type 0
LieIn lo hi es = Ascending start_of lo es × All (λ e. e.start ≤ hi) es

module _ (source : Bytes) (emitter : Emitter) (nl : Bytes) where
  emit_edits-LieIn :
      (c : Candidate) (es : List ByteEdit)
      → c.body_byte_range.start < c.body_byte_range.stop
      → emit_edits source emitter nl c ≡ accept es
      → LieIn c.body_byte_range.start c.body_byte_range.stop es
  unfolding emit_edits
  emit_edits-LieIn c es h e = ground arith

  -- What an accepted body has passed.
  judge-accept :
      (prev : Option Range) (c : Candidate) (es : List ByteEdit)
      → judge source emitter nl prev c ≡ accept es
      → (c.body_byte_range.start < c.body_byte_range.stop)
        × (limit prev ≤ c.body_byte_range.start)
        × (emit_edits source emitter nl c ≡ accept es)
  unfolding judge
  judge-accept none c es e = ground arith
  judge-accept (some prev) c es e = ground arith

  pub judge-unanchored :
      (prev : Option Range) (c : Candidate) (es : List ByteEdit)
      → judge source emitter nl prev c ≡ accept es
      → body_starts_with_anchor_sentinel source c.body_byte_range.start ≡ false
  unfolding judge
  judge-unanchored prev c es e = ground arith

  judge-LieIn :
      (prev : Option Range) (c : Candidate) (es : List ByteEdit)
      → judge source emitter nl prev c ≡ accept es
      → LieIn (limit prev) c.body_byte_range.stop es × (limit prev ≤ c.body_byte_range.stop)
  judge-LieIn prev c es e =
      let (proper, behind, emitted) = judge-accept prev c es e in
      let (up, below) = emit_edits-LieIn c es proper emitted in
      (
        (Ascending-weaken start_of (limit prev) c.body_byte_range.start es behind up, below),
        omega arith,
      )

  plan_candidates-Ascending :
      (prev : Option Range) (cs : List Candidate)
      → Ascending start_of (limit prev) (plan_candidates source emitter nl prev cs).0
  unfolding plan_candidates
  plan_candidates-Ascending prev [] = tt
  plan_candidates-Ascending prev (c ∷ cs) =
      by_verdict (judge source emitter nl prev c) refl (plan_candidates-Ascending prev cs)
        (plan_candidates-Ascending (some c.body_byte_range) cs)
    where
      by_verdict :
          (v : Verdict)
          → judge source emitter nl prev c ≡ v
          → Ascending start_of (limit prev) (plan_candidates source emitter nl prev cs).0
          → Ascending start_of c.body_byte_range.stop
              (plan_candidates source emitter nl (some c.body_byte_range) cs).0
          → Ascending start_of (limit prev) (plan_candidates source emitter nl prev (c ∷ cs)).0
      by_verdict (skip reason) e skipped accepted = rw (e, plan_candidates) skipped
      by_verdict (accept es) e skipped accepted =
          let ((up, below), le) = judge-LieIn prev c es e in
          rw (e, plan_candidates)
            (Ascending-append start_of (limit prev) c.body_byte_range.stop es _ up below le
              accepted)

insert_first :
    (source : Bytes) (e : ByteEdit) (es : List ByteEdit)
    → FitsIn source e
    → All (FitsIn source) es
    → Ascending start_of e.start es
    → insert edit_le e es ≡ e ∷ es
unfolding insert edit_le
insert_first source e [] f fs up = refl
insert_first source e (d ∷ es) f (g, gs) (le, up) = ground arith

sort-Ascending :
    (source : Bytes) (k : ℕ) (es : List ByteEdit)
    → All (FitsIn source) es
    → Ascending start_of k es
    → sort edit_le es ≡ es
unfolding sort
sort-Ascending source k [] fs up = refl
sort-Ascending source k (e ∷ es) (f, fs) (le, up) =
    ap (insert edit_le e) (sort-Ascending source e.start es fs up)
    ∙ insert_first source e es f fs up

-- Without spawn sites the final sort changes nothing: the edits are those of the loop.
pub in_source_order :
    (source : Bytes) (cs : List Candidate) (emitter : Emitter) (nl : Bytes)
    → plan_edits source emitter nl cs []
      ≡ plan_candidates source emitter nl none (sort candidate_le cs)
unfolding plan_edits
in_source_order source cs emitter nl =
    let up = plan_candidates-Ascending source emitter nl none (sort candidate_le cs) in
    let same =
      sort-Ascending source 0 _
        (plan_candidates-FitsIn source emitter nl none (sort candidate_le cs)) up in
    rw (no_spawn_edits source emitter.handles_tokio_spawn, append-nil, same) refl

-- The edits are, body after body, edits that lie behind the first byte of a body and within it; each body
-- begins at `lo` or behind it, where the one before it ends.
abbrev pub InBodies : ℕ → List (Range × List ByteEdit) → List ByteEdit → Type 0
InBodies lo [] es = es ≡ []
InBodies lo (b ∷ bodies) es =
    (later : List ByteEdit) × (es ≡ b.1 ++ later)
    × (lo ≤ b.0.start)
    × (b.0.start < b.0.stop)
    × All (λ e. (b.0.start < e.start) × (e.start ≤ e.stop) × (e.stop ≤ b.0.stop)) b.1
    × InBodies b.0.stop bodies later

-- A body of one of the candidates.
abbrev pub IsBodyOf : List Candidate → Range × List ByteEdit → Type 0
IsBodyOf cs b =
    (before : List Candidate) × (c : Candidate) × (after : List Candidate) × (cs
      ≡ before ++ c ∷ after)
    × (b.0 ≡ c.body_byte_range)

abbrev pub HasBodies : List Candidate → ℕ → List ByteEdit → Type 0
HasBodies cs lo es =
    (bodies : List (Range × List ByteEdit)) × InBodies lo bodies es × All (IsBodyOf cs) bodies

module _ (source : Bytes) (emitter : Emitter) (nl : Bytes) (whole : List Candidate) where
  -- A candidate among those to come is one of all.
  abbrev Comes : List Candidate → Type 0
  Comes cs = All (λ c. IsBodyOf whole (c.body_byte_range, [])) cs

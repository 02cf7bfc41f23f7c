-- ===== src/Transform/Build/Edits.antt =====
-- Every edit of a plan is an insertion at a character boundary of the source.
use rust_compile_time_instru.Prelude.{
  ◌+◌, ◌≤◌, ◌<◌, ◌≡◌, refl, Bool, true, false, Option, none, some, List, [], ◌∷◌, All, length,
  if◌then◌else◌, arith, All-append,
}
use rust_compile_time_instru.Bytes.{Bytes, is_char_boundary}
use rust_compile_time_instru.Candidate.{Candidate, Range, SpawnSite}
use rust_compile_time_instru.Transform.Sort.{sort, sort-All, Ascending, sort-Ascending}
use rust_compile_time_instru.Transform.{Emitter, ByteEdit}
use rust_compile_time_instru.Transform.Build.{
  Verdict, accept, skip, emit_edits, judge, plan_candidates, spawn_edits, all_spawn_edits,
  plan_edits, edit_le, candidate_le,
}

pub record FitsIn (source : Bytes) (e : ByteEdit) : Type 0 where
  pub pure_insertion : e.start ≡ e.stop
  pub in_bounds : e.start ≤ length source
  pub on_boundary : is_char_boundary source e.start ≡ true

module _ (source : Bytes) (emitter : Emitter) (nl : Bytes) where
  emit_edits-FitsIn :
      (c : Candidate) (es : List ByteEdit)
      → c.body_byte_range.start < c.body_byte_range.stop
      → c.body_byte_range.stop ≤ length source
      → is_char_boundary source (c.body_byte_range.start + 1) ≡ true
      → emit_edits source emitter nl c ≡ accept es
      → All (FitsIn source) es
  unfolding emit_edits
  emit_edits-FitsIn c es lo hi b h = ground arith

  judge-FitsIn :
      (prev : Option Range) (c : Candidate) (es : List ByteEdit)
      → judge source emitter nl prev c ≡ accept es
      → All (FitsIn source) es
  unfolding judge
  judge-FitsIn prev c es h = ground (arith, emit_edits-FitsIn c es)

  pub plan_candidates-FitsIn :
      (prev : Option Range) (cs : List Candidate)
      → All (FitsIn source) (plan_candidates source emitter nl prev cs).0
  unfolding plan_candidates
  plan_candidates-FitsIn prev [] = tt
  plan_candidates-FitsIn prev (c ∷ cs) =
      by_verdict (judge source emitter nl prev c) refl (plan_candidates-FitsIn prev cs)
        (plan_candidates-FitsIn (some c.body_byte_range) cs)
    where
      by_verdict :
          (v : Verdict)
          → judge source emitter nl prev c ≡ v
          → All (FitsIn source) (plan_candidates source emitter nl prev cs).0
          → All (FitsIn source) (plan_candidates source emitter nl (some c.body_byte_range) cs).0
          → All (FitsIn source) (plan_candidates source emitter nl prev (c ∷ cs)).0
      by_verdict (skip reason) e skipped accepted = rw (e, plan_candidates) skipped
      by_verdict (accept es) e skipped accepted =
          rw (e, plan_candidates)
            (All-append (FitsIn source) es _ (judge-FitsIn prev c es e) accepted)

module _ (source : Bytes) where
  spawn_edits-FitsIn : (s : SpawnSite) → All (FitsIn source) (spawn_edits source s)
  unfolding spawn_edits
  spawn_edits-FitsIn s = ground arith

  all_spawn_edits-FitsIn : (ss : List SpawnSite) → All (FitsIn source) (all_spawn_edits source ss)
  unfolding all_spawn_edits
  all_spawn_edits-FitsIn [] = tt
  all_spawn_edits-FitsIn (s ∷ ss) =
      All-append (FitsIn source) (spawn_edits source s) _ (spawn_edits-FitsIn s)
        (all_spawn_edits-FitsIn ss)

  pub plan_edits-FitsIn :
      (emitter : Emitter) (nl : Bytes) (cs : List Candidate) (ss : List SpawnSite)
      → All (FitsIn source) (plan_edits source emitter nl cs ss).0
  unfolding plan_edits
  plan_edits-FitsIn emitter nl cs ss = sort-All edit_le (FitsIn source) _ (
      All-append (FitsIn source) _ _
        (plan_candidates-FitsIn source emitter nl none (sort candidate_le cs))
        (spawns emitter.handles_tokio_spawn))
    where
      spawns : (b : Bool) → All (FitsIn source) (if b then all_spawn_edits source ss else [])
      spawns true = all_spawn_edits-FitsIn ss
      spawns false = tt

edit_le-start : (a b : ByteEdit) → edit_le a b ≡ true → a.start ≤ b.start
unfolding edit_le
edit_le-start a b h = ground arith

edit_gt-start : (a b : ByteEdit) → edit_le a b ≡ false → b.start ≤ a.start
unfolding edit_le
edit_gt-start a b h = ground arith

pub plan_edits-Ascending :
    (source : Bytes) (emitter : Emitter) (nl : Bytes) (cs : List Candidate) (ss : List SpawnSite)
    → Ascending (λ e. e.start) 0 (plan_edits source emitter nl cs ss).0
unfolding plan_edits
plan_edits-Ascending source emitter nl cs ss =
    sort-Ascending edit_le (λ e. e.start) edit_le-start edit_gt-start _

-- ===== src/Ast/Accounts.antt =====
-- What the walk over a file says of its functions.
use rust_compile_time_instru.Prelude.{
  ℕ, suc, ◌+◌, ◌≡◌, Bool, true, Option, none, some, [], ◌∷◌, arith, if◌then◌else◌, length,
  length-append,
}
use rust_compile_time_instru.Candidate.{Candidate, SkippedStats, total}
use rust_compile_time_instru.Ast.{is_cfg_test}
use rust_compile_time_instru.Ast.Tree.{
  EnclosingImpl, Call, Item, item_fn, impl_item_fn, item_impl, inline_mod, file_mod,
  foreign_item_fn, expr_call, expr_method_call, other, Items, nil, cons, count_item, count_items,
}
use rust_compile_time_instru.Ast.Visit.{
  Found, FileFacts, Skip, add, skip_of, method_skip_of, candidate_of, note_function, note_call,
  visit_item, visit_items, cfg_test, note_skip, note_symbol,
}

-- The functions that the test modules in files of their own have, outside of other test modules.
unfoldable mutual
  pub item_tests : Item → ℕ
  item_tests (item_fn f body) = items_tests body
  item_tests (impl_item_fn f body) = items_tests body
  item_tests (item_impl head items) = items_tests items
  item_tests (inline_mod attrs items) = if is_cfg_test attrs then 0 else items_tests items
  item_tests (file_mod attrs functions) = if is_cfg_test attrs then functions else 0
  item_tests (foreign_item_fn ident attrs) = 0
  item_tests (expr_call call inner) = items_tests inner
  item_tests (expr_method_call call inner) = items_tests inner
  item_tests (other inner) = items_tests inner

  pub items_tests : Items → ℕ
  items_tests nil = 0
  items_tests (cons i items) = item_tests i + items_tests items

-- The candidates and the functions skipped.
abbrev reported : Found → ℕ
reported v = length v.candidates + total v.skipped_stats

total-add : (s : SkippedStats) (k : Skip) (n : ℕ) → total (add s k n) ≡ total s + n
unfolding total add
total-add s k n = ground arith

reported-skip : (k : Skip) (n : ℕ) (v : Found) → reported (note_skip k n v) ≡ reported v + n
reported-skip k n v = let t = total-add v.skipped_stats k n in omega (arith, t)

reported-function :
    (k : Option Skip) (c : Candidate) (v : Found)
    → reported (note_function k c v) ≡ suc (reported v)
unfolding note_function
reported-function none c v = let l = length-append v.candidates (c ∷ []) in omega (arith, l)
reported-function (some k) c v = let t = reported-skip k 1 v in omega (arith, t)

reported-call :
    (file : FileFacts) (call : Call) (v : Found) → reported (note_call file call v) ≡ reported v
unfolding note_call
reported-call file call v = ground arith

mutual
  unfolding visit_item visit_items count_item count_items item_tests items_tests

  reported-item :
      (file : FileFacts) (imp : Option EnclosingImpl) (inside : Bool) (i : Item) (v : Found)
      → reported (visit_item file imp inside i v) ≡ reported v + (count_item i + item_tests i)
  reported-item file imp inside (item_fn f body) v =
      let r = reported-items file imp true body (
        note_function (skip_of file.file_has_otel inside f body)
          (candidate_of file.source_path none f) (note_symbol f.ident f.attrs v)) in
      let n =
        reported-function (skip_of file.file_has_otel inside f body)
          (candidate_of file.source_path none f) (note_symbol f.ident f.attrs v) in
      omega (arith, r, n)
  reported-item file imp inside (impl_item_fn f body) v =
      let r = reported-items file imp true body (
        note_function (method_skip_of file.file_has_otel inside imp f body)
          (candidate_of file.source_path imp f) (note_symbol f.ident f.attrs v)) in
      let n =
        reported-function (method_skip_of file.file_has_otel inside imp f body)
          (candidate_of file.source_path imp f) (note_symbol f.ident f.attrs v) in
      omega (arith, r, n)
  reported-item file imp inside (item_impl head items) v =
      reported-items file (some head) inside items v
  reported-item file imp inside (inline_mod attrs items) v =
      let r = reported-items file imp inside items v in
      let s = reported-skip cfg_test (count_items items) v in ground arith
  reported-item file imp inside (file_mod attrs functions) v =
      let s = reported-skip cfg_test functions v in ground arith
  reported-item file imp inside (foreign_item_fn ident attrs) v = omega arith
  reported-item file imp inside (expr_call call inner) v =
      let r = reported-items file imp inside inner (note_call file call v) in
      let n = reported-call file call v in omega (arith, r, n)
  reported-item file imp inside (expr_method_call call inner) v =
      reported-items file imp inside inner v
  reported-item file imp inside (other inner) v = reported-items file imp inside inner v

  reported-items :
      (file : FileFacts) (imp : Option EnclosingImpl) (inside : Bool) (items : Items) (v : Found)
      → reported (visit_items file imp inside items v)
        ≡ reported v + (count_items items + items_tests items)
  reported-items file imp inside nil v = omega arith
  reported-items file imp inside (cons i items) v =
      let a = reported-item file imp inside i v in
      let b = reported-items file imp inside items (visit_item file imp inside i v) in
      omega (arith, a, b)

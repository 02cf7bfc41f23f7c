-- ===== src/Ast/Visit.antt =====
-- cargo-instrument/src/ast.rs: `CandidateFinder`, the walk that collects the candidates and the spawn sites of
-- one file. What the walk sets for the nodes below and puts back is an argument.
use rust_compile_time_instru.Prelude.{
  ℕ, ◌+◌, String, Bool, true, false, not, ◌&&◌, ◌||◌, Option, none, some, List, [], ◌∷◌, ◌++◌, ◌==◌,
  str_eq, if◌then◌else◌, any,
}
use rust_compile_time_instru.Bytes.{Bytes, codes}
use rust_compile_time_instru.Semantics.{is_polling_adapter_method}
use rust_compile_time_instru.Candidate.{
  FunctionKind, free, inherent_method, trait_method, Candidate, SkippedStats, SpawnSite,
}
use rust_compile_time_instru.Ast.{
  Attribute, is_colliding_symbol, is_cfg_test, has_inline_attribute, has_instrument_attribute,
}
use rust_compile_time_instru.Ast.Names.{normalize_type_str}
use rust_compile_time_instru.Ast.Tree.{
  Function, EnclosingImpl, Call, Item, item_fn, impl_item_fn, item_impl, inline_mod, file_mod,
  foreign_item_fn, expr_call, expr_method_call, other, Items, nil, cons, count_items,
  is_directly_self_recursive, body_has_handwritten_otel,
}

-- What the walk collects.
pub record Found : Type 0 where
  pub candidates : List Candidate
  pub spawn_sites : List SpawnSite
  pub skipped_stats : SkippedStats
  pub has_colliding_symbols : Bool

-- What holds of the whole file.
pub record FileFacts : Type 0 where
  pub source_path : Bytes
  pub file_has_otel : Bool
  pub file_shadows_tokio : Bool

-- The counters of the skipped functions.
pub data Skip : Type 0 where
  nested_function : Skip
  cfg_test : Skip
  const_fn : Skip
  extern_abi : Skip
  inline_attribute : Skip
  handwritten_otel : Skip
  self_recursive : Skip
  adapter_trait : Skip
  drop_implementation : Skip

unfoldable pub add : SkippedStats → Skip → ℕ → SkippedStats
add s nested_function n = record s { nested_function = s.nested_function + n }
add s cfg_test n = record s { cfg_test = s.cfg_test + n }
add s const_fn n = record s { const_fn = s.const_fn + n }
add s extern_abi n = record s { extern_abi = s.extern_abi + n }
add s inline_attribute n = record s { inline_attribute = s.inline_attribute + n }
add s handwritten_otel n = record s { handwritten_otel = s.handwritten_otel + n }
add s self_recursive n = record s { self_recursive = s.self_recursive + n }
add s adapter_trait n = record s { adapter_trait = s.adapter_trait + n }
add s drop_implementation n = record s { drop_implementation = s.drop_implementation + n }

abbrev pub note_symbol : String → List Attribute → Found → Found
note_symbol ident attrs v = record v {
  has_colliding_symbols = is_colliding_symbol ident attrs || v.has_colliding_symbols;
}

-- The early returns that `visit_item_fn` and `visit_impl_item_fn` share.
unfoldable pub skip_of : Bool → Bool → Function → Items → Option Skip
skip_of file_has_otel inside f body =
    if inside
    then some nested_function
    else if is_cfg_test f.attrs
    then some cfg_test
    else if f.is_const
    then some const_fn
    else if f.has_abi
    then some extern_abi
    else if has_inline_attribute f.attrs
    then some inline_attribute
    else if has_instrument_attribute f.attrs
    then some handwritten_otel
    else if is_directly_self_recursive f.ident body
    then some self_recursive
    else if body_has_handwritten_otel body file_has_otel
    then some handwritten_otel
    else none

abbrev is_conversion : String → Bool
is_conversion t =
    any (str_eq t) ("Deref" ∷ "DerefMut" ∷ "AsRef" ∷ "AsMut" ∷ "Borrow" ∷ "BorrowMut" ∷ [])

abbrev trait_skip_of : Option String → String → Option Skip
trait_skip_of none ident = none
trait_skip_of (some t) ident =
    if is_polling_adapter_method t ident
    then some adapter_trait
    else if str_eq t "Drop" && str_eq ident "drop"
    then some drop_implementation
    else if is_conversion t
    then some adapter_trait
    else none

abbrev ident_of : Option EnclosingImpl → Option String
ident_of none = none
ident_of (some imp) = imp.trait_ident

-- The early returns of a method, the last of them for what its trait is.
unfoldable pub method_skip_of : Bool → Bool → Option EnclosingImpl → Function → Items → Option Skip
method_skip_of file_has_otel inside imp f body = elim (skip_of file_has_otel inside f body) [
  | some s ↦ some s
  | none ↦ trait_skip_of (ident_of imp) f.ident
]

-- The kind, the name and whether the enclosing `impl` is generic.
unfoldable pub described : Option EnclosingImpl → String → FunctionKind × (Bytes × Bool)
described none ident = (free, (codes ident, false))
described (some imp) ident = elim imp.trait_name [
  | some tr ↦ (
    trait_method (codes tr) (codes imp.type_name),
    (
      normalize_type_str (
          codes "<"
          ++ codes imp.type_name
          ++ codes " as "
          ++ codes tr
          ++ codes ">::"
          ++ codes ident),
      imp.is_generic,
    ),
  )
  | none ↦ (
    inherent_method (codes imp.type_name),
    (normalize_type_str (codes imp.type_name ++ codes "::" ++ codes ident), imp.is_generic),
  )
]

unfoldable pub candidate_of : Bytes → Option EnclosingImpl → Function → Candidate
candidate_of source_path imp f =
    let d = described imp f.ident in
    record {
      function_name = d.1.0;
      source_file = source_path;
      byte_range = f.byte_range;
      body_byte_range = f.body_byte_range;
      kind = d.0;
      is_async = f.is_async;
      is_generic = f.is_generic;
      has_enclosing_generics = d.1.1;
      returns_result = f.returns_result;
      returns_mut_reference = f.returns_mut_reference;
      returns_reference_or_lifetime = f.returns_reference_or_lifetime;
    }

abbrev is_spawn_path : List String → Bool
is_spawn_path (a ∷ b ∷ []) = str_eq a "tokio" && str_eq b "spawn"
is_spawn_path (a ∷ b ∷ c ∷ []) = str_eq a "tokio" && (str_eq b "task" && str_eq c "spawn")
is_spawn_path _ = false

abbrev calls_spawn : Option (List String × String) → Bool
calls_spawn none = false
calls_spawn (some p) = is_spawn_path (p.0)

unfoldable pub is_tokio_spawn_call : Call → Bool → Bool
is_tokio_spawn_call call file_shadows_tokio =
    not (file_shadows_tokio || not (call.arity == 1))
    && (calls_spawn call.callee && not call.is_arg_context_wrapped)

abbrev pub note_skip : Skip → ℕ → Found → Found
note_skip s n v = record v { skipped_stats = add v.skipped_stats s n }

-- A function that is skipped is counted; another becomes a candidate. The body is walked after it.
unfoldable pub note_function : Option Skip → Candidate → Found → Found
note_function (some s) c v = note_skip s 1 v
note_function none c v = record v { candidates = v.candidates ++ (c ∷ []) }

unfoldable pub note_call : FileFacts → Call → Found → Found
note_call file call v =
    if is_tokio_spawn_call call file.file_shadows_tokio
    then record v {
      spawn_sites =
          v.spawn_sites
          ++ (record { source_file = file.source_path; arg_byte_range = call.arg_byte_range } ∷ []);
    }
    else v

unfoldable mutual
  pub visit_item : FileFacts → Option EnclosingImpl → Bool → Item → Found → Found
  visit_item file imp inside (item_fn f body) v = visit_items file imp true body (
      note_function (skip_of file.file_has_otel inside f body)
        (candidate_of file.source_path none f) (note_symbol f.ident f.attrs v))
  visit_item file imp inside (impl_item_fn f body) v = visit_items file imp true body (
      note_function (method_skip_of file.file_has_otel inside imp f body)
        (candidate_of file.source_path imp f) (note_symbol f.ident f.attrs v))
  visit_item file imp inside (item_impl head items) v = visit_items file (some head) inside items v
  visit_item file imp inside (inline_mod attrs items) v =
      let walked = visit_items file imp inside items v in
      if is_cfg_test attrs then note_skip cfg_test (count_items items) v else walked
  visit_item file imp inside (file_mod attrs functions) v =
      if is_cfg_test attrs then note_skip cfg_test functions v else v
  visit_item file imp inside (foreign_item_fn ident attrs) v = note_symbol ident attrs v
  visit_item file imp inside (expr_call call inner) v =
      visit_items file imp inside inner (note_call file call v)
  visit_item file imp inside (expr_method_call call inner) v = visit_items file imp inside inner v
  visit_item file imp inside (other inner) v = visit_items file imp inside inner v

  pub visit_items : FileFacts → Option EnclosingImpl → Bool → Items → Found → Found
  visit_items file imp inside nil v = v
  visit_items file imp inside (cons i items) v =
      visit_items file imp inside items (visit_item file imp inside i v)

abbrev pub no_stats : SkippedStats
no_stats = record {
  inline_attribute = 0;
  adapter_trait = 0;
  drop_implementation = 0;
  cfg_test = 0;
  const_fn = 0;
  extern_abi = 0;
  self_recursive = 0;
  handwritten_otel = 0;
  nested_function = 0;
}

abbrev pub nothing_found : Found
nothing_found = record {
  candidates = [];
  spawn_sites = [];
  skipped_stats = no_stats;
  has_colliding_symbols = false;
}

-- The walk over a file.
unfoldable pub visit_file : FileFacts → Items → Found
visit_file file items = visit_items file none false items nothing_found

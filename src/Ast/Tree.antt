-- ===== src/Ast/Tree.antt =====
-- The syntax tree that the analysis of cargo-instrument/src/ast.rs walks over: the nodes that it has a
-- method for, with what `syn` says of them, and every other node as its children, in the order of
-- the walk. The signature of a function holds no node of its own.
use rust_compile_time_instru.Prelude.{
  ℕ, suc, ◌+◌, String, Bool, false, not, ◌&&◌, ◌||◌, Option, none, some, List, str_eq,
  if◌then◌else◌,
}
use rust_compile_time_instru.Text.{contains}
use rust_compile_time_instru.Candidate.{Range}
use rust_compile_time_instru.Ast.{Attribute, last_of}

-- `syn::ItemFn` and `syn::ImplItemFn`, without the body. The three answers about the return type
-- are those of `is_result_return_type`, `returns_mut_reference` and `returns_reference_or_lifetime`.
pub record Function : Type 0 where
  pub ident : String
  pub attrs : List Attribute
  pub is_const : Bool
  pub has_abi : Bool
  pub byte_range : Range
  pub body_byte_range : Range
  pub is_async : Bool
  pub is_generic : Bool
  pub returns_result : Bool
  pub returns_mut_reference : Bool
  pub returns_reference_or_lifetime : Bool

-- The head of an `impl` block; its names are normalised.
pub record EnclosingImpl : Type 0 where
  pub type_name : String
  pub trait_name : Option String
  pub trait_ident : Option String
  pub is_generic : Bool

-- A call of what is named by a path, if it is: the segments of the path and its text.
pub record Call : Type 0 where
  pub callee : Option (List String × String)
  pub arity : ℕ
  pub is_arg_context_wrapped : Bool
  pub arg_byte_range : Range

pub record MethodCall : Type 0 where
  pub method : String
  pub is_bare_self : Bool
  pub is_receiver_tracer : Bool
  pub is_closure : Bool

mutual
  pub data Item : Type 0 where
    item_fn : Function → Items → Item
    impl_item_fn : Function → Items → Item
    item_impl : EnclosingImpl → Items → Item
    inline_mod : List Attribute → Items → Item
    file_mod : List Attribute → (functions : ℕ) → Item
    foreign_item_fn : (ident : String) → List Attribute → Item
    expr_call : Call → Items → Item
    expr_method_call : MethodCall → Items → Item
    other : Items → Item

  pub data Items : Type 0 where
    nil : Items
    cons : Item → Items → Items

-- `FnCounter`
unfoldable mutual
  pub count_item : Item → ℕ
  count_item (item_fn f body) = suc (count_items body)
  count_item (impl_item_fn f body) = suc (count_items body)
  count_item (item_impl head items) = count_items items
  count_item (inline_mod attrs items) = count_items items
  count_item (file_mod attrs functions) = 0
  count_item (foreign_item_fn ident attrs) = 0
  count_item (expr_call call inner) = count_items inner
  count_item (expr_method_call call inner) = count_items inner
  count_item (other inner) = count_items inner

  pub count_items : Items → ℕ
  count_items nil = 0
  count_items (cons i items) = count_item i + count_items items

abbrev calls_name : String → Option (List String × String) → Bool
calls_name target none = false
calls_name target (some p) = elim (last_of (p.0)) [ none ↦ false | some s ↦ str_eq s target ]

-- `RecursionDetector`
unfoldable mutual
  pub item_calls : String → Item → Bool
  item_calls target (item_fn f body) = items_call target body
  item_calls target (impl_item_fn f body) = items_call target body
  item_calls target (item_impl head items) = items_call target items
  item_calls target (inline_mod attrs items) = items_call target items
  item_calls target (file_mod attrs functions) = false
  item_calls target (foreign_item_fn ident attrs) = false
  item_calls target (expr_call call inner) =
      calls_name target call.callee || items_call target inner
  item_calls target (expr_method_call call inner) =
      (str_eq call.method target && call.is_bare_self) || items_call target inner
  item_calls target (other inner) = items_call target inner

  pub items_call : String → Items → Bool
  items_call target nil = false
  items_call target (cons i items) = item_calls target i || items_call target items

unfoldable pub is_directly_self_recursive : String → Items → Bool
is_directly_self_recursive ident body = items_call ident body

abbrev names_otel : Option (List String × String) → Bool
names_otel none = false
names_otel (some p) = contains (p.1) "__otel_" || contains (p.1) "opentelemetry"

abbrev uses_otel : Bool → MethodCall → Bool
uses_otel file_has_otel call =
    if str_eq call.method "with_context"
    then not call.is_closure
    else str_eq call.method "start" && (file_has_otel || call.is_receiver_tracer)

-- `OtelDetector`
unfoldable mutual
  pub item_has_otel : Bool → Item → Bool
  item_has_otel file (item_fn f body) = items_have_otel file body
  item_has_otel file (impl_item_fn f body) = items_have_otel file body
  item_has_otel file (item_impl head items) = items_have_otel file items
  item_has_otel file (inline_mod attrs items) = items_have_otel file items
  item_has_otel file (file_mod attrs functions) = false
  item_has_otel file (foreign_item_fn ident attrs) = false
  item_has_otel file (expr_call call inner) = names_otel call.callee || items_have_otel file inner
  item_has_otel file (expr_method_call call inner) =
      uses_otel file call || items_have_otel file inner
  item_has_otel file (other inner) = items_have_otel file inner

  pub items_have_otel : Bool → Items → Bool
  items_have_otel file nil = false
  items_have_otel file (cons i items) = item_has_otel file i || items_have_otel file items

unfoldable pub body_has_handwritten_otel : Items → Bool → Bool
body_has_handwritten_otel body file_has_otel = items_have_otel file_has_otel body
